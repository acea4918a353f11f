-- ===== src/Journal/Read/Cached.antt =====
-- The cache never decides what the log says: a read through it is a parse from byte zero.
use mootloop.Base.{
  ℕ, ◌+◌, ◌≤◌, ◌≡◌, refl, ◌∙◌, sym, true, Option, none, some, List, [], ◌∷◌, ◌++◌, arith, ltb,
  Result, ok, err, ◌>>=◌, length, drop, take, Bool-cases, inl, inr, ◌⊎◌, if◌then◌else◌, All,
  All-append, Text, text_eq_key, text_eq_iff, take-append-drop, length-take-le,
}
use mootloop.Base.Dict.{lookup, pop, lookup-pop}
use mootloop.Journal.Read.{
  scan, ParsedPrefix, Cache, max_cached, evict, store, prefix_intact, usable, read_from,
  read_events,
}
use mootloop.Journal.Read.Resume.{scan-append, scan-take, with_line}

module _ {E : Type 0} where
  evict-All :
      (P : Text × ParsedPrefix E → Type 0) (cache : Cache E) → All P cache → All P (evict cache)
  unfolding evict
  evict-All P [] h = h
  evict-All P (entry ∷ cache) h = elim (Bool-cases (ltb max_cached (length (entry ∷ cache)))) [
    | inl over ↦ rw (over, evict) (evict-All P cache h.1)
    | inr fits ↦ rw (fits, evict) h
  ]

  pop-All :
      (P : Text × ParsedPrefix E → Type 0) (key : Text) (cache : Cache E)
      → All P cache
      → All P (pop key cache)
  unfolding pop
  pop-All P key [] h = h
  pop-All P key ((j, p) ∷ cache) h = ground (arith, pop-All P key cache h.1)

  lookup-All :
      (P : Text × ParsedPrefix E → Type 0) (key : Text) (cache : Cache E) (p : ParsedPrefix E)
      → All P cache
      → lookup key cache ≡ some p
      → P (key, p)
  unfolding lookup
  lookup-All P key [] p h e = cc
  lookup-All P key ((j, q) ∷ cache) p h e =
      ground (arith, text_eq_iff j key, lookup-All P key cache p h.1)

  evict-length : (cache : Cache E) → length (evict cache) ≤ 4
  unfolding evict
  evict-length [] = omega arith
  evict-length (entry ∷ cache) = ground (arith, evict-length cache)

  lookup-append_last :
      (key : Text) (p : ParsedPrefix E) (cache : Cache E)
      → lookup key cache ≡ none
      → lookup key (cache ++ (key, p) ∷ []) ≡ some p
  unfolding lookup
  lookup-append_last key p [] h = ground (arith, text_eq_iff key key)
  lookup-append_last key p ((j, q) ∷ cache) h = ground (arith, lookup-append_last key p cache)

  lookup-evict_last :
      (key : Text) (p : ParsedPrefix E) (cache : Cache E)
      → lookup key cache ≡ none
      → lookup key (evict (cache ++ (key, p) ∷ [])) ≡ some p
  unfolding evict
  lookup-evict_last key p [] h = lookup-append_last key p [] h
  lookup-evict_last key p ((j, q) ∷ cache) h =
      elim (Bool-cases (ltb max_cached (length ((j, q) ∷ (cache ++ (key, p) ∷ []))))) [
        | inl over ↦
            rw (over, evict) (lookup-evict_last key p cache (unfold lookup in (ground arith)))
        | inr fits ↦ rw (fits, evict) (lookup-append_last key p ((j, q) ∷ cache) h)
      ]

  -- After a store the cache holds at most four prefixes, the new one among them.
  pub store_keeps :
      (key : Text) (p : ParsedPrefix E) (cache : Cache E)
      → (length (store key p cache) ≤ 4) × (lookup key (store key p cache) ≡ some p)
  unfolding store
  store_keeps key p cache = (
    evict-length (pop key cache ++ (key, p) ∷ []),
    lookup-evict_last key p (pop key cache)
        (ground (arith, lookup-pop key key cache, text_eq_iff key key)),
  )

module _ {E : Type 0} (sha256 : List ℕ → Text) (validate : List ℕ → Option E) where
  -- The entry was parsed from some bytes, all of them complete lines.
  abbrev pub IsParsed : Text × ParsedPrefix E → Type 0
  IsParsed (key, p) =
      (bytes : List ℕ) × (p.offset ≡ length bytes)
      × (p.digest ≡ sha256 bytes)
      × (scan validate [] bytes ≡ ok (p.events, length bytes))

  -- A starting point for a read that agrees with the file.
  abbrev IsStart : List ℕ → ℕ × List E → Type 0
  IsStart snapshot (start, events) =
      (scan validate [] (take start snapshot) ≡ ok (events, start)) × (start ≤ length snapshot)

  intact_cases :
      (snapshot : List ℕ) (p : ParsedPrefix E)
      → prefix_intact sha256 snapshot p ≡ true
      → (p.offset ≡ 0)
        ⊎ ((p.offset ≤ length snapshot) × (sha256 (take p.offset snapshot) ≡ p.digest))
  unfolding prefix_intact
  intact_cases snapshot p h = ground (arith, text_eq_iff (sha256 (take p.offset snapshot)) p.digest)

  empty-IsStart :
      (snapshot bytes : List ℕ) (p : ParsedPrefix E)
      → p.offset ≡ 0
      → p.offset ≡ length bytes
      → scan validate [] bytes ≡ ok (p.events, length bytes)
      → IsStart snapshot (p.offset, p.events)
  unfolding scan
  empty-IsStart snapshot [] p zero_offset len parsed = (rw zero_offset parsed, omega arith)
  empty-IsStart snapshot (b ∷ bytes) p zero_offset len parsed = absurd (omega arith)

  scan-start :
      (snapshot : List ℕ) (n : ℕ) (events : List E)
      → scan validate [] (take n snapshot) ≡ ok (events, n)
      → scan validate [] snapshot ≡ (scan validate [] (drop n snapshot) >>= with_line events n)
  scan-start snapshot n events parsed =
      rw (take-append-drop n snapshot) at
        (scan-append validate (take n snapshot) (drop n snapshot) [] events n tt parsed)

  module _ (injective : (b c : List ℕ) → sha256 b ≡ sha256 c → b ≡ c) where
    intact-IsStart :
        (key : Text) (snapshot : List ℕ) (p : ParsedPrefix E)
        → prefix_intact sha256 snapshot p ≡ true
        → IsParsed (key, p)
        → IsStart snapshot (p.offset, p.events)
    intact-IsStart key snapshot p h (bytes, len, dig, parsed) = elim (intact_cases snapshot p h) [
      | inl empty ↦ empty-IsStart snapshot bytes p empty len parsed
      | inr (short, same) ↦
          let whole : take p.offset snapshot ≡ bytes = injective _ _ (same ∙ dig) in
          (rw (whole, len) parsed, short)
    ]

    usable-IsStart :
        (key : Text) (snapshot : List ℕ) (cached : Option (ParsedPrefix E))
        → ((p : ParsedPrefix E) → cached ≡ some p → IsParsed (key, p))
        → IsStart snapshot (usable sha256 snapshot cached)
    unfolding usable scan
    usable-IsStart key snapshot none h = (refl, omega arith)
    usable-IsStart key snapshot (some p) h = elim (Bool-cases (prefix_intact sha256 snapshot p)) [
      | inl intact ↦ rw (intact, if◌then◌else◌) (intact-IsStart key snapshot p intact (h p refl))
      | inr stale ↦ rw (stale, if◌then◌else◌) (refl, omega arith)
    ]

  stored-IsParsed :
      (key : Text) (snapshot : List ℕ) (n k : ℕ) (events fs : List E)
      → scan validate [] snapshot ≡ ok (events ++ fs, n + k)
      → IsParsed (
        key,
        record { offset = n + k; events = events ++ fs; digest = sha256 (take (n + k) snapshot) },
      )
  stored-IsParsed key snapshot n k events fs e =
      let (alone, short) = scan-take validate snapshot [] (events ++ fs) (n + k) tt e in
      let len : length (take (n + k) snapshot) ≡ n + k =
        length-take-le (n + k) snapshot (omega arith) in
      (take (n + k) snapshot, sym len, refl, rw len alone)

  read_from-parse :
      (cache : Cache E) (key : Text) (snapshot : List ℕ) (n : ℕ) (events : List E)
      (m : Result (List E × ℕ))
      → scan validate [] (drop n snapshot) ≡ m
      → scan validate [] snapshot ≡ (m >>= with_line events n)
      → All IsParsed cache
      → let (r, after) = read_from sha256 validate cache key snapshot (n, events) in
        (r ≡ (scan validate [] snapshot >>= λ r. ok r.0)) × All IsParsed after
  unfolding read_from store
  read_from-parse cache key snapshot n events (err x) e whole valid =
      (rw (e, read_from, whole), rw (e, read_from) valid)
  read_from-parse cache key snapshot n events (ok (fs, k)) e whole valid = (
    rw (e, read_from, whole),
    rw (e, read_from)
        (evict-All IsParsed _ (
          All-append IsParsed _ _ (pop-All IsParsed key cache valid)
            (stored-IsParsed key snapshot n k events fs whole, tt))),
  )

  -- With a hash that no two byte strings share and a cache whose entries were each parsed from
  -- some bytes, a read through the cache returns what a parse of the whole file returns, the error
  -- of a malformed line included, whatever has happened to the file since; and the entries of the
  -- cache that it leaves were again parsed from some bytes.
  pub read_events-parse :
      ((b c : List ℕ) → sha256 b ≡ sha256 c → b ≡ c)
      → (cache : Cache E) (key : Text) (snapshot : List ℕ) → All IsParsed cache
      → let (r, after) = read_events sha256 validate cache key (some snapshot) in
        (r ≡ (scan validate [] snapshot >>= λ r. ok r.0)) × All IsParsed after
  unfolding read_events
  read_events-parse injective cache key snapshot valid =
      let cached = lookup key cache in
      let (n, events) = usable sha256 snapshot cached in
      let (parsed, short) =
        usable-IsStart injective key snapshot cached
          (λ p found. lookup-All IsParsed key cache p valid found) in
      read_from-parse cache key snapshot n events (scan validate [] (drop n snapshot)) refl
        (scan-start snapshot n events parsed) valid
