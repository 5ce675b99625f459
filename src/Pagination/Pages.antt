-- ===== src/Pagination/Pages.antt =====
-- What a client reads that follows the pages of a listing.
use native.Mathlib.Nat.{suc-mul}
use mathlib.Core.List.{append-nil}
use res_q_server.Common.{
  List, [], arith, drop, drop-eq_nil, if◌then◌else◌, length, suc, sym, zero, ℕ, ◌*◌, ◌++◌, ◌+◌, ◌≡◌,
  ◌≤◌, ap, drop-drop, if-cases, ltb, take, take-append-drop, ◌∙◌, ◌-◌, Option, max, none, some,
  false,
}
use res_q_server.Pagination.{paginate, ceil_div}

-- What the requests for the following pages gave, behind the rows of a page.
abbrev pub add_page {ℓ} : {A : Type ℓ} → List A → Option (List A) → Option (List A)
add_page items none = none
add_page items (some rest) = some (items ++ rest)

-- A client that asks for page after page while there is a next one, and makes at most `requests`
-- requests; `none` where it would have to make one more.
abbrev pub follow_pages {ℓ} : {A : Type ℓ} → (requests page limit : ℕ) → List A → Option (List A)
follow_pages zero page limit rows = none
follow_pages (suc requests) page limit rows =
    let rest = follow_pages requests (suc page) limit rows in
    let result = paginate (record { page = page; limit = limit }) rows in
    if result.pagination.has_next_page then add_page result.items rest else some result.items

module _ {ℓ} {A : Type ℓ} where
  take_of_drop-nil : (n : ℕ) (xs : List A) → drop n xs ≡ [] → take n xs ≡ xs
  take_of_drop-nil n xs e =
      sym (append-nil (take n xs)) ∙ ap (λ rest. take n xs ++ rest) (sym e) ∙ take-append-drop n xs

  -- The last page that there is.
  take_last :
      (skipped limit : ℕ) (rows : List A)
      → ltb (suc skipped * limit) (length rows) ≡ false
      → take limit (drop (skipped * limit) rows) ≡ drop (skipped * limit) rows
  take_last skipped limit rows last =
      take_of_drop-nil limit (drop (skipped * limit) rows)
        (drop-drop limit (skipped * limit) rows ∙ drop-eq_nil _ rows (ground arith))

  -- A page that others follow.
  add_page-drop :
      (skipped limit : ℕ) (rows : List A) (rest : Option (List A))
      → rest ≡ some (drop (suc skipped * limit) rows)
      → add_page (take limit (drop (skipped * limit) rows)) rest
        ≡ some (drop (skipped * limit) rows)
  add_page-drop skipped limit rows rest e =
      let cut = drop (skipped * limit) rows in
      let tail : drop (suc skipped * limit) rows ≡ drop limit cut =
        ap (λ k. drop k rows) (suc-mul skipped limit)
        ∙ sym (drop-drop limit (skipped * limit) rows) in
      rw e (ap some (ap (λ xs. take limit cut ++ xs) tail ∙ take-append-drop limit cut))

  follow_pages_from :
      (requests skipped limit : ℕ) (rows : List A)
      → length rows ≤ (skipped + suc requests) * limit
      → follow_pages (suc requests) (suc skipped) limit rows ≡ some (drop (skipped * limit) rows)
  unfolding paginate
  follow_pages_from zero skipped limit rows enough =
      let e : suc skipped - 1 ≡ skipped = omega arith in
      let last : ltb (suc skipped * limit) (length rows) ≡ false = ground arith in
      rw (e, follow_pages) (rw last (ap some (take_last skipped limit rows last)))
  follow_pages_from (suc requests) skipped limit rows enough =
      let e : suc skipped - 1 ≡ skipped = omega arith in
      let next = follow_pages_from requests (suc skipped) limit rows (ground arith) in
      rw (e, follow_pages)
        (if-cases (λ got. got ≡ some (drop (skipped * limit) rows))
          (ltb (suc skipped * limit) (length rows))
          (λ more. add_page-drop skipped limit rows _ next)
          (λ last. ap some (take_last skipped limit rows last)))

  follow_pages_enough :
      (requests limit : ℕ) (rows : List A)
      → 1 ≤ requests
      → length rows ≤ requests * limit
      → follow_pages requests 1 limit rows ≡ some rows
  follow_pages_enough zero limit rows some_request enough = absurd (ground arith)
  follow_pages_enough (suc requests) limit rows some_request enough =
      follow_pages_from requests 0 limit rows (ground arith)
      ∙ ap (λ k. some (drop k rows)) (let e : 0 * limit ≡ 0 = omega arith in e)

  -- A client that starts at page 1 and goes on while the page says that there is a next one reads
  -- exactly the rows that pass the filter, each once and in their order, if the limit is at least 1
  -- and the rows do not change meanwhile. It makes at most `totalPages` requests, and one where
  -- there are no rows.
  pub follow_pages-paginate :
      (limit : ℕ) (rows : List A)
      → 1 ≤ limit
      → follow_pages
          (max 1 (paginate (record { page = 1; limit = limit }) rows).pagination.total_pages)
          1
          limit
          rows
        ≡ some rows
  unfolding paginate
  follow_pages-paginate limit rows h =
      follow_pages_enough (max 1 (ceil_div (length rows) limit)) limit rows (ground arith)
        (grind arith)
