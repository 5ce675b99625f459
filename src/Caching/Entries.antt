-- ===== src/Caching/Entries.antt =====
-- Which entries a store holds after the calls of the cache service.
use mathlib.Core.Path.{subst}
use res_q_server.Common.{
  All, Any, List, Option, [], false, none, some, true, ℕ, ◌∷◌, ◌≡◌, ◌⊎◌, Bool-cases, if-cases, inl,
  inr, sym,
}
use res_q_server.Caching.{
  CacheKey, Cached, Pattern, Redis, del_pages, invalidate, is_match, cache_del, cache_del_pattern,
}
use res_q_server.Incident.Defs.{is_defined}

-- A GET of the key replies with the value.
abbrev pub Gives : {S : Type 0} → Redis S → S → CacheKey → Cached → Type 0
Gives redis s key value = redis.get key s ≡ some (some value)

abbrev pub Lists : List CacheKey → CacheKey → Type 0
Lists keys key = Any (λ k. k ≡ key) keys

-- What Redis documents: a SET changes no other key; a DEL adds nothing, and removes its keys if it
-- is replied to; an iteration of SCAN finds every key that matches and stays there. Entries may
-- vanish by themselves.
pub record KeepsEntries {S : Type 0} (redis : Redis S) : Type 0 where
  pub set_gives :
      (key k : CacheKey) (value v : Cached) (ttl : ℕ) (s : S)
      → Gives redis (redis.set key value ttl s).1 k v
      → ((k ≡ key) × (v ≡ value)) ⊎ Gives redis s k v
  pub del_gives :
      (keys : List CacheKey) (k : CacheKey) (v : Cached) (s : S)
      → Gives redis (redis.del keys s).1 k v
      → Gives redis s k v
  pub del_removes :
      (keys : List CacheKey) (k : CacheKey) (v : Cached) (s : S)
      → (redis.del keys s).0 ≡ true
      → Lists keys k
      → ¬ Gives redis (redis.del keys s).1 k v
  pub scan_finds :
      (pattern : Pattern) (k : CacheKey) (v : Cached) (s : S)
      → All (λ reply. is_defined reply ≡ true) (redis.scan pattern s)
      → is_match pattern k ≡ true
      → Gives redis s k v
      → Any
          (λ reply. (keys : List CacheKey) × (reply ≡ some keys) × Lists keys k)
          (redis.scan pattern s)

-- Every command is replied to.
pub record Answers {S : Type 0} (redis : Redis S) : Type 0 where
  pub del : (keys : List CacheKey) (s : S) → (redis.del keys s).0 ≡ true
  pub scan :
      (pattern : Pattern) (s : S) → All (λ reply. is_defined reply ≡ true) (redis.scan pattern s)

module _ {S : Type 0} (redis : Redis S) (laws : KeepsEntries redis) where
  del_pages-Gives :
      (pages : List (Option (List CacheKey))) (k : CacheKey) (v : Cached) (s : S)
      → Gives redis (del_pages redis true pages s) k v
      → Gives redis s k v
  unfolding del_pages
  del_pages-Gives [] k v s h = h
  del_pages-Gives (none ∷ pages) k v s h = h
  del_pages-Gives (some [] ∷ pages) k v s h = del_pages-Gives pages k v s h
  del_pages-Gives (some (key ∷ keys) ∷ pages) k v s h =
      let s1 = (redis.del (key ∷ keys) s).1 in
      laws.del_gives (key ∷ keys) k v s (
        if-cases (λ last. Gives redis last k v → Gives redis s1 k v) (redis.del (key ∷ keys) s).0
          (λ e. del_pages-Gives pages k v s1) (λ e g. g) h)

  -- An iteration that is replied to throughout deletes what its pages list.
  del_pages-removes :
      (pages : List (Option (List CacheKey))) (k : CacheKey) (v : Cached) (s : S)
      → Answers redis
      → All (λ reply. is_defined reply ≡ true) pages
      → Any (λ reply. (keys : List CacheKey) × (reply ≡ some keys) × Lists keys k) pages
      → ¬ Gives redis (del_pages redis true pages s) k v
  unfolding del_pages
  del_pages-removes [] k v s answers replied found h = elim found [ ]
  del_pages-removes (none ∷ pages) k v s answers replied found h = cc (replied.0)
  del_pages-removes (some [] ∷ pages) k v s answers replied (inl (keys, e, there)) h =
      let nothing : [] ≡ keys = cc in subst (λ l. Lists l k) (sym nothing) there
  del_pages-removes (some [] ∷ pages) k v s answers replied (inr later) h =
      del_pages-removes pages k v s answers replied.1 later h
  del_pages-removes (some (key ∷ keys) ∷ pages) k v s answers replied (inl (l, e, there)) h =
      let s1 = (redis.del (key ∷ keys) s).1 in
      let same : l ≡ key ∷ keys = cc in
      laws.del_removes (key ∷ keys) k v s (answers.del (key ∷ keys) s)
        (subst (λ l'. Lists l' k) same there)
        (if-cases (λ last. Gives redis last k v → Gives redis s1 k v) (redis.del (key ∷ keys) s).0
          (λ e'. del_pages-Gives pages k v s1) (λ e' g. g) h)
  del_pages-removes (some (key ∷ keys) ∷ pages) k v s answers replied (inr later) h =
      let s1 = (redis.del (key ∷ keys) s).1 in
      if-cases (λ last. Gives redis last k v → ⊥) (redis.del (key ∷ keys) s).0
        (λ e. del_pages-removes pages k v s1 answers replied.1 later)
        (λ e. absurd (cc (answers.del (key ∷ keys) s))) h

  cache_del-Gives :
      (keys : List CacheKey) (k : CacheKey) (v : Cached) (s : S)
      → Answers redis
      → Gives redis (cache_del redis true keys s) k v
      → Gives redis s k v × (¬ Lists keys k)
  unfolding cache_del
  cache_del-Gives [] k v s answers h = (h, λ there. there)
  cache_del-Gives (key ∷ keys) k v s answers h = (
    laws.del_gives (key ∷ keys) k v s h,
    λ there. laws.del_removes (key ∷ keys) k v s (answers.del (key ∷ keys) s) there h,
  )

  pattern-Gives :
      (pattern : Pattern) (k : CacheKey) (v : Cached) (s : S)
      → Answers redis
      → Gives redis (cache_del_pattern redis true pattern s) k v
      → Gives redis s k v × (is_match pattern k ≡ false)
  unfolding cache_del_pattern
  pattern-Gives pattern k v s answers h =
      let before = del_pages-Gives (redis.scan pattern s) k v s h in
      (
        before,
        elim (Bool-cases (is_match pattern k)) [
          | inr e ↦ e
          | inl e ↦ absurd (
              del_pages-removes (redis.scan pattern s) k v s answers (answers.scan pattern s)
                (laws.scan_finds pattern k v s (answers.scan pattern s) e before) h)
        ],
      )

  -- After an invalidation that Redis answers, no key that it names or matches is there, and what is
  -- there was there before.
  pub invalidate-Gives :
      (keys : List CacheKey) (pattern : Pattern) (k : CacheKey) (v : Cached) (s : S)
      → Answers redis
      → Gives redis (invalidate redis true keys pattern s) k v
      → Gives redis s k v × (¬ Lists keys k) × (is_match pattern k ≡ false)
  unfolding invalidate
  invalidate-Gives keys pattern k v s answers h =
      let (middle, unmatched) = pattern-Gives pattern k v (cache_del redis true keys s) answers h in
      let (before, unlisted) = cache_del-Gives keys k v s answers middle in
      (before, unlisted, unmatched)
