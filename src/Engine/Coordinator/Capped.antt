-- ===== src/Engine/Coordinator/Capped.antt =====
-- How many directories a batch of seeds opens: capBatch of internal/engine/seed.go.
use smart_buster.Prelude.{
  ℕ, zero, suc, ◌≤◌, ◌<◌, Bool, true, false, not, ◌&&◌, ◌||◌, ◌≡◌, refl, ap, ◌∙◌, ◌⊎◌, inl, inr,
  Option, none, some, List, [], ◌∷◌, ◌++◌, String, str_append, str_eq, eq_iff, arith, ltb,
  if◌then◌else◌, if-elim, length, count_if, any_of, Bool-cases, Option-cases,
}
use smart_buster.Prelude.Float.{Float, IsOrdered}
use smart_buster.Prelude.Sort.{
  IsStrictWeak, sort_by, is_sorted, is_sorted-sort_by, count_if-sort_by,
}
use smart_buster.Prelude.Text.{split, trim}
use smart_buster.Engine.Coordinator.{DirState, Dirs, lookup, contains}
use smart_buster.Seed.{Seed}
use smart_buster.Engine.Coordinator.Paths.{
  ancestors_from, seed_ancestor_dirs, max_new_dirs_per_batch, is_new, add_new, new_dirs_of,
  cap_from, by_prio, cap_batch,
}

count_if-contains :
    (d : String) (found : List String) → contains d found ≡ ltb 0 (count_if (λ e. str_eq e d) found)
unfolding contains
count_if-contains d [] = ground arith
count_if-contains d (e ∷ found) = ground (arith, count_if-contains d found)

or_assoc : (a b c : Bool) → ((a || b) || c) ≡ (a || (b || c))
or_assoc true b c = refl
or_assoc false b c = refl

-- Where a path stands after its first n segments
abbrev pub after : ℕ → String → List String → String
after zero dir segments = dir
after (suc n) dir [] = dir
after (suc n) dir (s ∷ segments) = after n (str_append (str_append dir "/") s) segments

abbrev pub any_below : ℕ → (ℕ → Bool) → Bool
any_below zero p = false
any_below (suc n) p = p 0 || any_below n (λ k. p (suc k))

-- The number of the segments, less the last one
abbrev pub above : List String → ℕ
above [] = 0
above (s ∷ segments) = length segments

abbrev pub lies_below : String → List String → Bool
lies_below d segments = any_below (above segments) (λ k. str_eq (after (suc k) "" segments) d)

contains-ancestors_from :
    (d dir : String) (segments : List String)
    → contains d (ancestors_from dir segments)
      ≡ any_below (above segments) (λ k. str_eq (after (suc k) dir segments) d)
unfolding contains ancestors_from
contains-ancestors_from d dir [] = refl
contains-ancestors_from d dir (s ∷ []) = refl
contains-ancestors_from d dir (s ∷ t ∷ rest) =
    let child = str_append (str_append dir "/") s in
    ap (λ b. str_eq child d || b) (contains-ancestors_from d child (t ∷ rest))

module _ {F : Type 0} where
  abbrev pub is_absent : Option (DirState F) → Bool
  is_absent none = true
  is_absent (some ds) = false

  -- One of the seeds lies below the directory: this is where its path stands after some of its
  -- segments, at least one and not the last one.
  abbrev pub is_asked : String → List (Seed F) → Bool
  is_asked d seeds = any_of (λ (sd : Seed F). lies_below d (split b'/' (trim b'/' sd.path))) seeds

  unfoldable asks : String → List (Seed F) → Bool
  asks d seeds = any_of (λ (sd : Seed F). contains d (seed_ancestor_dirs (trim b'/' sd.path))) seeds

  asks_lem : (d : String) (seeds : List (Seed F)) → asks d seeds ≡ is_asked d seeds
  unfolding asks seed_ancestor_dirs
  asks_lem d [] = refl
  asks_lem d (sd ∷ seeds) =
      rw (contains-ancestors_from d "" (split b'/' (trim b'/' sd.path)), asks_lem d seeds) refl

  -- The directories for which `want` holds and that do not exist yet, each once
  abbrev pub IsNewSet : Dirs F → (String → Bool) → List String → Type 0
  IsNewSet dirs want found =
      (d : String)
      → count_if (λ e. str_eq e d) found ≡ (if want d && is_absent (lookup d dirs) then 1 else 0)

  -- At most 500 directories that do not exist yet have one of the seeds below them.
  abbrev pub OpensFew : Dirs F → List (Seed F) → Type 0
  OpensFew dirs seeds =
      (found : List String) × IsNewSet dirs (λ d. is_asked d seeds) found × (length found ≤ 500)

  abbrev pub OpensMany : Dirs F → List (Seed F) → Type 0
  OpensMany dirs seeds =
      (found : List String) × IsNewSet dirs (λ d. is_asked d seeds) found × (500 < length found)

module _ {F : Type 0} ⦃f : Float F⦄ where
  is_new_lem :
      (dirs : Dirs F) (found : List String) (e : String)
      → is_new dirs found e ≡ (not (contains e found) && is_absent (lookup e dirs))
  is_new_lem dirs found e = elim (Option-cases (lookup e dirs)) [
    | inl u ↦ rw u (ground arith)
    | inr (ds, u) ↦ rw u (ground arith)
  ]

  -- The set with one directory more, where that does not exist
  add_one :
      (dirs : Dirs F) (e d : String) (found : List String) (want : Bool)
      → count_if (λ x. str_eq x d) found ≡ (if want && is_absent (lookup d dirs) then 1 else 0)
      → count_if (λ x. str_eq x d) (if is_new dirs found e then e ∷ found else found)
        ≡ (if (want || str_eq e d) && is_absent (lookup d dirs) then 1 else 0)
  add_one dirs e d found want h =
      let new = is_new_lem dirs found e in
      let there = count_if-contains d found in
      if-elim
        (λ (fs : List String).
          count_if (λ x. str_eq x d) fs
          ≡ (if (want || str_eq e d) && is_absent (lookup d dirs) then 1 else 0))
        (is_new dirs found e)
        (λ u. elim (Bool-cases (str_eq e d)) [
          | inl w ↦
              let same : e ≡ d = (eq_iff e d).0 w in
              ground (
                arith,
                h,
                u,
                w,
                new,
                there,
                ap (λ k. contains k found) same,
                ap (λ k. is_absent (lookup k dirs)) same,
              )
          | inr w ↦ ground (arith, h, w)
        ])
        (λ u. elim (Bool-cases (str_eq e d)) [
          | inl w ↦
              let same : e ≡ d = (eq_iff e d).0 w in
              ground (
                arith,
                h,
                u,
                w,
                new,
                there,
                ap (λ k. contains k found) same,
                ap (λ k. is_absent (lookup k dirs)) same,
              )
          | inr w ↦ ground (arith, h, w)
        ])

  add_new-IsNewSet :
      (dirs : Dirs F) (ds : List String) (found : List String) (want : String → Bool)
      → IsNewSet dirs want found
      → IsNewSet dirs (λ d. want d || contains d ds) (add_new dirs ds found)
  unfolding add_new contains
  add_new-IsNewSet dirs [] found want h d = ground (arith, h d)
  add_new-IsNewSet dirs (e ∷ ds) found want h d =
      add_new-IsNewSet dirs ds (if is_new dirs found e then e ∷ found else found)
        (λ k. want k || str_eq e k) (λ k. add_one dirs e k found (want k) (h k)) d
      ∙ ap (λ b. if b && is_absent (lookup d dirs) then 1 else 0)
          (or_assoc (want d) (str_eq e d) (contains d ds))

  abbrev Opens : Dirs F → (String → Bool) → List (Seed F) → List String → Type 0
  Opens dirs want seeds found = IsNewSet dirs (λ d. want d || asks d seeds) found

  -- `kept` is the longest front of `seeds` within the bound, beside what is wanted already.
  abbrev IsFront : Dirs F → (String → Bool) → List (Seed F) → List (Seed F) → Type 0
  IsFront dirs want seeds kept =
      (rest : List (Seed F)) × (kept ++ rest ≡ seeds)
      × ((found : List String) × Opens dirs want kept found × (length found ≤ 500))
      × ((rest ≡ [])
          ⊎ ((sd : Seed F) × (more : List (Seed F)) × (rest ≡ sd ∷ more)
              × ((found : List String) × Opens dirs want (kept ++ sd ∷ []) found
                  × (500 < length found))))

  cap_from-IsFront :
      (dirs : Dirs F) (want : String → Bool) (found : List String) (seeds : List (Seed F))
      → IsNewSet dirs want found
      → length found ≤ 500
      → IsFront dirs want seeds (cap_from dirs found seeds)
  unfolding cap_from asks
  cap_from-IsFront dirs want found [] h few =
      ([], refl, (found, (λ d. ground (arith, h d)), few), inl refl)
  cap_from-IsFront dirs want found (sd ∷ sds) h few =
      let ds = seed_ancestor_dirs (trim b'/' sd.path) in
      let grown = new_dirs_of dirs sd found in
      let set = add_new-IsNewSet dirs ds found want h in
      if-elim (IsFront dirs want (sd ∷ sds)) (ltb max_new_dirs_per_batch (length grown))
        (λ u. (
          sd ∷ sds,
          refl,
          (found, (λ d. ground (arith, h d)), few),
          inr (sd, sds, refl, (grown, (λ d. ground (arith, set d)), ground (arith, u))),
        ))
        (λ u.
          let (rest, whole, (kept, opens, n), end) =
            cap_from-IsFront dirs (λ d. want d || contains d ds) grown sds set
              (ground (arith, u)) in
          (
            rest,
            ap (◌∷◌ sd) whole,
            (
              kept,
              (λ d.
                  opens d
                  ∙ ap (λ b. if b && is_absent (lookup d dirs) then 1 else 0)
                      (or_assoc (want d) (contains d ds) (asks d (cap_from dirs grown sds)))),
              n,
            ),
            elim end [
              | inl e ↦ inl e
              | inr (next, more, e, (many, opened, m)) ↦ inr (
                next,
                more,
                e,
                (
                  many,
                  (λ d.
                      opened d
                      ∙ ap (λ b. if b && is_absent (lookup d dirs) then 1 else 0)
                          (or_assoc (want d) (contains d ds)
                            (asks d (cap_from dirs grown sds ++ next ∷ [])))),
                  m,
                ),
              )
            ],
          ))

module _ {F : Type 0} ⦃f : Float F⦄ ⦃o : IsOrdered F⦄ where
  -- The seeds in another order, in which none has a lower priority than a later one
  abbrev pub IsRanked : List (Seed F) → List (Seed F) → Type 0
  IsRanked seeds ranked =
      ((p : Seed F → Bool) → count_if p ranked ≡ count_if p seeds)
      × (is_sorted (λ (a b : Seed F). f.lt b.base_prio a.base_prio) ranked ≡ true)

  -- `kept` is a front of the ranked seeds that opens few directories, and one seed more would
  -- open many.
  abbrev pub IsCut : Dirs F → List (Seed F) → List (Seed F) → Type 0
  IsCut dirs seeds kept =
      (rest : List (Seed F)) × IsRanked seeds (kept ++ rest)
      × OpensFew dirs kept
      × ((rest ≡ [])
          ⊎ ((sd : Seed F) × (more : List (Seed F)) × (rest ≡ sd ∷ more)
              × OpensMany dirs (kept ++ sd ∷ [])))

  asked_set :
      (dirs : Dirs F) (seeds : List (Seed F)) (found : List String)
      → IsNewSet dirs (λ d. asks d seeds) found
      → IsNewSet dirs (λ d. is_asked d seeds) found
  asked_set dirs seeds found h d =
      h d ∙ ap (λ b. if b && is_absent (lookup d dirs) then 1 else 0) (asks_lem d seeds)

  by_prio-IsStrictWeak : IsStrictWeak (by_prio {F = F})
  by_prio-IsStrictWeak = record {
    asymmetric = λ a b h. o.lt_asymm b.base_prio a.base_prio h;
    negated_trans = λ a b c h k. o.lt_cotrans a.base_prio b.base_prio c.base_prio h k;
  }

  -- capBatch puts the seeds in an order in which none has a lower priority than a later one, and
  -- keeps the longest front of them that lies in at most 500 directories which do not exist yet,
  -- each counted once: with the next seed, if there is one, there are more than 500.
  pub cap_batch-IsCut :
      (dirs : Dirs F) (seeds : List (Seed F)) → IsCut dirs seeds (cap_batch dirs seeds)
  unfolding cap_batch
  cap_batch-IsCut dirs seeds =
      let ranked = sort_by by_prio seeds in
      let (rest, whole, few, end) =
        cap_from-IsFront dirs (λ d. false) [] ranked (λ d. refl) (ground arith) in
      (
        rest,
        (
          λ p. ap (count_if p) whole ∙ count_if-sort_by by_prio p seeds,
          ap (is_sorted by_prio) whole ∙ is_sorted-sort_by by_prio by_prio-IsStrictWeak seeds,
        ),
        (few.0, asked_set dirs (cap_batch dirs seeds) few.0 few.1, few.2),
        elim end [
          | inl e ↦ inl e
          | inr (sd, more, e, (found, opens, many)) ↦ inr (
            sd,
            more,
            e,
            (found, asked_set dirs (cap_batch dirs seeds ++ sd ∷ []) found opens, many),
          )
        ],
      )
