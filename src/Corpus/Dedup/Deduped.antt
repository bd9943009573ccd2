-- ===== src/Corpus/Dedup/Deduped.antt =====
-- What dedup of internal/corpus/expand.go keeps of a path: its survivor, the score and the kind.
use smart_buster.Prelude.{
  Bool, true, false, not, ◌&&◌, ◌||◌, ◌≡◌, refl, List, [], ◌∷◌, map, String, str_eq, eq_iff, arith,
  if-elim, Bool-cases, inl, inr,
}
use smart_buster.Prelude.Float.{Float, IsOrdered}
use smart_buster.Seed.Provenance.{is_member}
use smart_buster.Seed.Provenance.Union.{is_nodup}
use smart_buster.Corpus.Dedup.{
  CorpusCandidate, Group, is_dir, better, new_group, join_group, note_candidate, group_all,
  survivor, dedup,
}

module _ {F : Type 0} where
  abbrev pub paths : List (CorpusCandidate F) → List String
  paths cands = map (λ (c : CorpusCandidate F). c.path) cands

  abbrev group_paths : List (Group F) → List String
  group_paths gs = map (λ (g : Group F). g.best.path) gs

module _ {F : Type 0} ⦃f : Float F⦄ ⦃o : IsOrdered F⦄ where
  -- A candidate stands in the list under the path, with a score that is not lower and, where the
  -- first is a directory, as a directory.
  pub covers : CorpusCandidate F → List (CorpusCandidate F) → Bool
  covers c [] = false
  covers c (d ∷ ds) =
      (str_eq d.path c.path
        && (not (f.lt d.score c.score) && (not (is_dir c.kind) || is_dir d.kind)))
      || covers c ds

  pub covers_all : List (CorpusCandidate F) → List (CorpusCandidate F) → Bool
  unfolding covers
  covers_all [] ds = true
  covers_all (c ∷ cs) ds = covers c ds && covers_all cs ds

  covered : CorpusCandidate F → List (Group F) → Bool
  covered c [] = false
  covered c (g ∷ gs) =
      (str_eq g.best.path c.path
        && (not (f.lt g.best.score c.score) && (not (is_dir c.kind) || g.any_dir)))
      || covered c gs

  path-better : (c cur : CorpusCandidate F) → (better c cur).path ≡ cur.path
  path-better c cur =
      if-elim (λ (x : CorpusCandidate F). x.path ≡ cur.path) (f.lt cur.score c.score) (λ u. refl)
        (λ u. refl)

  score-better : (c cur : CorpusCandidate F) → f.lt (better c cur).score c.score ≡ false
  score-better c cur =
      if-elim (λ (x : CorpusCandidate F). f.lt x.score c.score ≡ false) (f.lt cur.score c.score)
        (λ u. o.lt_irrefl c.score) (λ u. u)

  score-better_keeps :
      (c cur : CorpusCandidate F) (low : F)
      → f.lt cur.score low ≡ false
      → f.lt (better c cur).score low ≡ false
  score-better_keeps c cur low h =
      if-elim (λ (x : CorpusCandidate F). f.lt x.score low ≡ false) (f.lt cur.score c.score)
        (λ u. o.lt_cotrans low cur.score c.score h (o.lt_asymm cur.score c.score u)) (λ u. h)

  is_member-note_candidate :
      (k : String) (c : CorpusCandidate F) (gs : List (Group F))
      → is_member k (group_paths (note_candidate c gs))
        ≡ (is_member k (group_paths gs) || str_eq c.path k)
  unfolding is_member note_candidate new_group join_group
  is_member-note_candidate k c [] = ground arith
  is_member-note_candidate k c (g ∷ gs) = elim (Bool-cases (str_eq g.best.path c.path)) [
    | inl u ↦
        rw u (
          rw (path-better c g.best) (ground (arith, u, eq_iff g.best.path c.path, eq_iff c.path k)))
    | inr u ↦ rw u (ground (arith, is_member-note_candidate k c gs))
  ]

  nodup-note_candidate :
      (c : CorpusCandidate F) (gs : List (Group F))
      → is_nodup (group_paths gs) ≡ true
      → is_nodup (group_paths (note_candidate c gs)) ≡ true
  unfolding is_nodup note_candidate new_group join_group is_member
  nodup-note_candidate c [] h = refl
  nodup-note_candidate c (g ∷ gs) h = elim (Bool-cases (str_eq g.best.path c.path)) [
    | inl u ↦ rw u (rw (path-better c g.best) h)
    | inr u ↦ rw u (
        ground (
          arith,
          h,
          u,
          nodup-note_candidate c gs,
          is_member-note_candidate g.best.path c gs,
          eq_iff g.best.path c.path,
          eq_iff c.path g.best.path,
        ))
  ]

  covered-note_candidate :
      (c : CorpusCandidate F) (gs : List (Group F)) → covered c (note_candidate c gs) ≡ true
  unfolding covered note_candidate new_group join_group
  covered-note_candidate c [] = ground (arith, eq_iff c.path c.path, o.lt_irrefl c.score)
  covered-note_candidate c (g ∷ gs) = elim (Bool-cases (str_eq g.best.path c.path)) [
    | inl u ↦ rw u (rw (path-better c g.best) (ground (arith, u, score-better c g.best)))
    | inr u ↦ rw u (ground (arith, covered-note_candidate c gs))
  ]

  covered-keeps :
      (d c : CorpusCandidate F) (gs : List (Group F))
      → covered d gs ≡ true
      → covered d (note_candidate c gs) ≡ true
  unfolding covered note_candidate new_group join_group
  covered-keeps d c [] h = ground arith
  covered-keeps d c (g ∷ gs) h = elim (Bool-cases (str_eq g.best.path c.path)) [
    | inl u ↦
        rw u (rw (path-better c g.best) (ground (arith, h, score-better_keeps c g.best d.score)))
    | inr u ↦ rw u (ground (arith, h, covered-keeps d c gs))
  ]

  group_all-keeps :
      (d : CorpusCandidate F) (cs : List (CorpusCandidate F)) (gs : List (Group F))
      → covered d gs ≡ true
      → covered d (group_all cs gs) ≡ true
  unfolding group_all
  group_all-keeps d [] gs h = h
  group_all-keeps d (c ∷ cs) gs h =
      group_all-keeps d cs (note_candidate c gs) (covered-keeps d c gs h)

  group_all-nodup :
      (cs : List (CorpusCandidate F)) (gs : List (Group F))
      → is_nodup (group_paths gs) ≡ true
      → is_nodup (group_paths (group_all cs gs)) ≡ true
  unfolding group_all
  group_all-nodup [] gs h = h
  group_all-nodup (c ∷ cs) gs h =
      group_all-nodup cs (note_candidate c gs) (nodup-note_candidate c gs h)

  is_member-group_all :
      (k : String) (cs : List (CorpusCandidate F)) (gs : List (Group F))
      → is_member k (group_paths (group_all cs gs))
        ≡ (is_member k (group_paths gs) || is_member k (paths cs))
  unfolding group_all is_member
  is_member-group_all k [] gs = ground arith
  is_member-group_all k (c ∷ cs) gs =
      ground
        (arith, is_member-group_all k cs (note_candidate c gs), is_member-note_candidate k c gs)

  paths-survivor : (gs : List (Group F)) → paths (map survivor gs) ≡ group_paths gs
  unfolding survivor
  paths-survivor [] = refl
  paths-survivor (g ∷ gs) = rw (paths-survivor gs) refl

  covers-survivor :
      (c : CorpusCandidate F) (gs : List (Group F))
      → covered c gs ≡ true
      → covers c (map survivor gs) ≡ true
  unfolding covered covers survivor
  covers-survivor c [] h = h
  covers-survivor c (g ∷ gs) h = elim (Bool-cases g.any_dir) [
    | inl u ↦ ground (arith, h, u, covers-survivor c gs)
    | inr u ↦ ground (arith, h, u, covers-survivor c gs)
  ]

  group_all-covers :
      (cs : List (CorpusCandidate F)) (gs : List (Group F))
      → covers_all cs (map survivor (group_all cs gs)) ≡ true
  unfolding group_all covers_all
  group_all-covers [] gs = refl
  group_all-covers (c ∷ cs) gs =
      let next = note_candidate c gs in
      let here =
        covers-survivor c (group_all cs next)
          (group_all-keeps c cs next (covered-note_candidate c gs)) in
      ground (arith, here, group_all-covers cs next)

  -- Of the candidates of one path one survives, and none is made up: the paths are those that were
  -- given, each once. The survivor's score is not below that of any candidate of its path, and it is
  -- a directory if any of them was one.
  pub dedup_exact :
      (cands : List (CorpusCandidate F)) (k : String)
      → (is_nodup (paths (dedup cands)) ≡ true)
        × (is_member k (paths (dedup cands)) ≡ is_member k (paths cands))
        × (covers_all cands (dedup cands) ≡ true)
  unfolding dedup is_nodup is_member
  dedup_exact cands k =
      let gs = group_all cands [] in
      (
        rw (paths-survivor gs) (group_all-nodup cands [] refl),
        rw (paths-survivor gs) (is_member-group_all k cands []),
        group_all-covers cands [],
      )
