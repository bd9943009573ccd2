-- ===== src/Seed/Normalize/Merged.antt =====
-- The paths and priorities that Normalize of internal/seed/normalize.go gives.
use smart_buster.Prelude.{
  Bool, true, false, not, ◌&&◌, ◌||◌, ◌≡◌, refl, List, [], ◌∷◌, map, String, str_eq, eq_iff, arith,
  if-elim, Bool-cases, inl, inr,
}
use smart_buster.Prelude.Float.{Float, IsOrdered}
use smart_buster.Seed.{RawSeed, Seed}
use smart_buster.Seed.Provenance.{is_member}
use smart_buster.Seed.Provenance.Union.{is_nodup}
use smart_buster.Seed.Normalize.{
  again, note_seed, is_dropped, strip_query, base_prio, normalize_from, normalize,
}

-- The paths that the raw seeds name, less those that are dropped
pub names : (String → String) → Bool → List RawSeed → String → Bool
names to_lower seed_assets [] k = false
names to_lower seed_assets (raw ∷ raws) k =
    (not (is_dropped to_lower seed_assets raw) && str_eq (strip_query raw.path) k)
    || names to_lower seed_assets raws k

module _ {F : Type 0} where
  abbrev pub paths : List (Seed F) → List String
  paths seeds = map (λ (s : Seed F). s.path) seeds

module _ {F : Type 0} ⦃f : Float F⦄ ⦃o : IsOrdered F⦄ where
  -- The path stands in the seeds with a priority that is not below this one.
  pub covers : String → F → List (Seed F) → Bool
  covers p prio [] = false
  covers p prio (s ∷ ss) = (str_eq s.path p && not (f.lt s.base_prio prio)) || covers p prio ss

  -- Every raw seed that is not dropped is covered.
  pub covers_all : (String → String) → (String → Bool) → Bool → List RawSeed → List (Seed F) → Bool
  unfolding covers
  covers_all to_lower is_recent seed_assets [] seeds = true
  covers_all to_lower is_recent seed_assets (raw ∷ raws) seeds =
      (is_dropped to_lower seed_assets raw
        || covers (strip_query raw.path) (base_prio is_recent raw.source) seeds)
      && covers_all to_lower is_recent seed_assets raws seeds

  is_member-note_seed :
      (k p : String) (prio : F) (source : String) (seeds : List (Seed F))
      → is_member k (paths (note_seed p prio source seeds))
        ≡ (is_member k (paths seeds) || str_eq p k)
  unfolding is_member note_seed again
  is_member-note_seed k p prio source [] = ground arith
  is_member-note_seed k p prio source (s ∷ ss) =
      ground (arith, is_member-note_seed k p prio source ss, eq_iff s.path p, eq_iff p k)

  nodup-note_seed :
      (p : String) (prio : F) (source : String) (seeds : List (Seed F))
      → is_nodup (paths seeds) ≡ true
      → is_nodup (paths (note_seed p prio source seeds)) ≡ true
  unfolding is_nodup note_seed again is_member
  nodup-note_seed p prio source [] h = refl
  nodup-note_seed p prio source (s ∷ ss) h = ground (
    arith,
    nodup-note_seed p prio source ss,
    is_member-note_seed s.path p prio source ss,
    eq_iff s.path p,
    eq_iff p s.path,
  )

  covers-note_seed :
      (p : String) (prio : F) (source : String) (seeds : List (Seed F))
      → covers p prio (note_seed p prio source seeds) ≡ true
  unfolding covers note_seed again
  covers-note_seed p prio source [] = ground (arith, eq_iff p p, o.lt_irrefl prio)
  covers-note_seed p prio source (s ∷ ss) =
      ground (arith, covers-note_seed p prio source ss, o.lt_irrefl prio)

  covers-keeps :
      (q : String) (low : F) (p : String) (prio : F) (source : String) (seeds : List (Seed F))
      → covers q low seeds ≡ true
      → covers q low (note_seed p prio source seeds) ≡ true
  unfolding covers note_seed again
  covers-keeps q low p prio source [] h = ground arith
  covers-keeps q low p prio source (s ∷ ss) h = ground (
    arith,
    covers-keeps q low p prio source ss,
    o.lt_asymm s.base_prio prio,
    o.lt_cotrans low s.base_prio prio,
  )

  normalize_from-keeps :
      (to_lower : String → String) (is_recent : String → Bool) (seed_assets : Bool)
      (raws : List RawSeed) (out : List (Seed F)) (q : String) (low : F)
      → covers q low out ≡ true
      → covers q low (normalize_from to_lower is_recent seed_assets raws out) ≡ true
  unfolding normalize_from
  normalize_from-keeps to_lower is_recent seed_assets [] out q low h = h
  normalize_from-keeps to_lower is_recent seed_assets (raw ∷ raws) out q low h =
      let p = strip_query raw.path in
      let prio = base_prio is_recent raw.source in
      normalize_from-keeps to_lower is_recent seed_assets raws _ q low (
        if-elim (λ (x : List (Seed F)). covers q low x ≡ true) (is_dropped to_lower seed_assets raw)
          (λ u. h) (λ u. covers-keeps q low p prio raw.source out h))

  normalize_from-covers :
      (to_lower : String → String) (is_recent : String → Bool) (seed_assets : Bool)
      (raws : List RawSeed) (out : List (Seed F))
      → covers_all to_lower is_recent seed_assets raws
          (normalize_from to_lower is_recent seed_assets raws out)
        ≡ true
  unfolding normalize_from covers_all
  normalize_from-covers to_lower is_recent seed_assets [] out = refl
  normalize_from-covers to_lower is_recent seed_assets (raw ∷ raws) out =
      let p = strip_query raw.path in
      let prio = base_prio is_recent raw.source in
      let next = note_seed p prio raw.source out in
      elim (Bool-cases (is_dropped to_lower seed_assets raw)) [
        | inl u ↦ rw u (normalize_from-covers to_lower is_recent seed_assets raws out)
        | inr u ↦
            let here =
              normalize_from-keeps to_lower is_recent seed_assets raws next p prio
                (covers-note_seed p prio raw.source out) in
            let rest = normalize_from-covers to_lower is_recent seed_assets raws next in
            rw u (ground (arith, here, rest))
      ]

  normalize_from-nodup :
      (to_lower : String → String) (is_recent : String → Bool) (seed_assets : Bool)
      (raws : List RawSeed) (out : List (Seed F))
      → is_nodup (paths out) ≡ true
      → is_nodup (paths (normalize_from to_lower is_recent seed_assets raws out)) ≡ true
  unfolding normalize_from
  normalize_from-nodup to_lower is_recent seed_assets [] out h = h
  normalize_from-nodup to_lower is_recent seed_assets (raw ∷ raws) out h =
      normalize_from-nodup to_lower is_recent seed_assets raws _ (
        if-elim (λ (x : List (Seed F)). is_nodup (paths x) ≡ true)
          (is_dropped to_lower seed_assets raw) (λ u. h)
          (λ u. nodup-note_seed (strip_query raw.path) _ raw.source out h))

  normalize_from-names :
      (to_lower : String → String) (is_recent : String → Bool) (seed_assets : Bool)
      (raws : List RawSeed) (out : List (Seed F)) (k : String)
      → is_member k (paths (normalize_from to_lower is_recent seed_assets raws out))
        ≡ (is_member k (paths out) || names to_lower seed_assets raws k)
  unfolding normalize_from names
  normalize_from-names to_lower is_recent seed_assets [] out k = ground arith
  normalize_from-names to_lower is_recent seed_assets (raw ∷ raws) out k =
      let p = strip_query raw.path in
      let prio = base_prio is_recent raw.source in
      let next = note_seed p prio raw.source out in
      elim (Bool-cases (is_dropped to_lower seed_assets raw)) [
        | inl u ↦
            let rest = normalize_from-names to_lower is_recent seed_assets raws out k in
            rw u (ground (arith, rest))
        | inr u ↦
            let rest = normalize_from-names to_lower is_recent seed_assets raws next k in
            rw u (ground (arith, rest, is_member-note_seed k p prio raw.source out))
      ]

  -- Normalize gives exactly the paths that the raw seeds name and that are not dropped, each path
  -- once, with a priority that is not below that of any source which names it.
  pub normalize_merges :
      (to_lower : String → String) (is_recent : String → Bool) (seed_assets : Bool)
      (raws : List RawSeed) (k : String) (seeds : List (Seed F))
      → seeds ≡ normalize to_lower is_recent seed_assets raws
      → (is_member k (paths seeds) ≡ names to_lower seed_assets raws k)
        × (is_nodup (paths seeds) ≡ true)
        × (covers_all to_lower is_recent seed_assets raws seeds ≡ true)
  unfolding normalize is_nodup is_member
  normalize_merges to_lower is_recent seed_assets raws k seeds e = rw e (
    normalize_from-names to_lower is_recent seed_assets raws [] k,
    normalize_from-nodup to_lower is_recent seed_assets raws [] refl,
    normalize_from-covers to_lower is_recent seed_assets raws [],
  )
