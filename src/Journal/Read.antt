-- ===== src/Journal/Read.antt =====
-- journal.py, the readers: `tail_events` from an offset, and `read_events` through the cache of
-- parsed prefixes. A file is its bytes, or `none` where it is absent. The event parser (pydantic)
-- and SHA-256 are parameters.
pub mod Resume
pub mod Cached
use mootloop.Base.{
  ℕ, ◌+◌, Bool, true, false, ◌&&◌, ◌||◌, Option, none, some, List, [], ◌∷◌, ◌++◌, Text, leb, nat_eq,
  if◌then◌else◌, Result, ok, err, validation_error, ◌>>=◌, of_option, length, drop, take, text_eq,
  text_eq_key, ltb, ◌==◌,
}
use mathlib.Core.List.{reverse}
use mootloop.Base.Dict.{Dict, lookup, pop}

-- The whitespace of `bytes.strip`.
unfoldable pub is_space : ℕ → Bool
is_space b = nat_eq b 32 || (leb 9 b && leb b 13)

unfoldable pub lstrip : List ℕ → List ℕ
lstrip [] = []
lstrip (b ∷ bs) = if is_space b then lstrip bs else b ∷ bs

unfoldable pub strip : List ℕ → List ℕ
unfolding lstrip is_space
strip bs = reverse (lstrip (reverse (lstrip bs)))

module _ {E : Type 0} (validate : List ℕ → Option E) where
  unfoldable pub parse_stripped : List ℕ → Result (List E)
  parse_stripped [] = ok []
  parse_stripped (b ∷ bs) = of_option validation_error (validate (b ∷ bs)) >>= λ e. ok (e ∷ [])

  -- One complete line: blank lines are skipped, a malformed one raises.
  unfoldable pub parse_line : List ℕ → Result (List E)
  unfolding parse_stripped
  parse_line line = parse_stripped (strip line)

  -- The loop over a chunk, `line` being the bytes of the current line read so far: the events of
  -- the complete lines, and the bytes consumed from the start of that line. A final line with no
  -- newline is left alone.
  unfoldable pub scan : List ℕ → List ℕ → Result (List E × ℕ)
  scan line [] = ok ([], 0)
  scan line (b ∷ bs) = elim (nat_eq b 10) [
    | true ↦ parse_line (line ++ b ∷ []) >>= λ es.
        scan [] bs >>= λ r. ok (es ++ r.0, length line + 1 + r.1)
    | false ↦ scan (line ++ b ∷ []) bs
  ]

  unfoldable pub tail_events : Option (List ℕ) → ℕ → Result (List E × ℕ)
  unfolding scan
  tail_events none after_offset = ok ([], after_offset)
  tail_events (some bytes) after_offset =
      scan [] (drop after_offset bytes) >>= λ r. ok (r.0, after_offset + r.1)

pub record ParsedPrefix (E : Type 0) : Type 0 where
  pub offset : ℕ
  pub events : List E
  pub digest : Text

-- The `OrderedDict`, oldest entry first.
abbrev pub Cache : Type 0 → Type 0
Cache E = Dict Text (ParsedPrefix E)

abbrev max_cached : ℕ
max_cached = 4

module _ {E : Type 0} where
  -- `while len(_CACHE) > _MAX_CACHED: _CACHE.popitem(last=False)`
  unfoldable pub evict : Cache E → Cache E
  evict [] = []
  evict (entry ∷ cache) = elim (ltb max_cached (length (entry ∷ cache))) [
    | true ↦ evict cache
    | false ↦ entry ∷ cache
  ]

  -- `_store`
  unfoldable pub store : Text → ParsedPrefix E → Cache E → Cache E
  unfolding evict
  store key prefix cache = evict (pop key cache ++ (key, prefix) ∷ [])

module _ {E : Type 0} (sha256 : List ℕ → Text) where
  unfoldable pub prefix_intact : List ℕ → ParsedPrefix E → Bool
  prefix_intact snapshot prefix =
      if nat_eq prefix.offset 0
      then true
      else if ltb (length snapshot) prefix.offset
      then false
      else sha256 (take prefix.offset snapshot) == prefix.digest

  -- The cached prefix that a read goes on from: an intact one, or the empty one.
  unfoldable pub usable : List ℕ → Option (ParsedPrefix E) → ℕ × List E
  unfolding prefix_intact
  usable snapshot none = (0, [])
  usable snapshot (some prefix) =
      if prefix_intact snapshot prefix then (prefix.offset, prefix.events) else (0, [])

  unfoldable pub read_from :
      (List ℕ → Option E) → Cache E → Text → List ℕ → ℕ × List E → Result (List E) × Cache E
  unfolding scan store
  read_from validate cache key snapshot (start, events) =
      elim (scan validate [] (drop start snapshot)) [
        | ok r ↦
            let offset = start + r.1 in
            let prefix : ParsedPrefix E = record {
              offset = offset;
              events = events ++ r.0;
              digest = sha256 (take offset snapshot);
            } in
            (ok (events ++ r.0), store key prefix cache)
        | err e ↦ (err e, cache)
      ]

  unfoldable pub read_events :
      (List ℕ → Option E) → Cache E → Text → Option (List ℕ) → Result (List E) × Cache E
  unfolding read_from usable
  read_events validate cache key none = (ok [], pop key cache)
  read_events validate cache key (some snapshot) =
      read_from validate cache key snapshot (usable snapshot (lookup key cache))
