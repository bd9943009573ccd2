-- ===== src/Engine/Coordinator/Conserved.antt =====
-- The book-keeping of a directory, as a predicate on its counters and on the candidates that wait
-- or are in flight.
use mathlib.Core.Path.{subst}
use smart_buster.Prelude.{
  ℕ, suc, ◌+◌, ◌<◌, Bool, true, false, ◌≡◌, refl, sym, ap, ◌∙◌, Option, none, some, [], ◌∷◌, String,
  str_eq, eq_iff, arith, leb, if◌then◌else◌, if-elim,
}
use smart_buster.Engine.Types.{Candidate}
use smart_buster.Engine.Coordinator.{
  DirLifecycle, dir_calibrating, dir_scanning, dir_done, DirState, Dirs, lookup, store, Scan,
  maybe_finish_dir, account,
}

abbrev pub FitsState : DirLifecycle → ℕ → ℕ → ℕ → Type 0
FitsState dir_calibrating total accounted load = (load ≡ 0) × (accounted ≡ 0)
FitsState dir_scanning total accounted load = (total ≡ accounted + load) × (0 < load)
FitsState dir_done total accounted load = (total ≡ accounted) × (load ≡ 0)

pub str_eq_self : (d : String) → str_eq d d ≡ true
str_eq_self d = (eq_iff d d).1 refl

module _ {A : Type 0} where
  same_branch :
      (b c : Bool) (p q r : A)
      → b ≡ c
      → (if c then p else r) ≡ (if c then p else if b then q else r)
  same_branch true true p q r h = refl
  same_branch true false p q r h = cc
  same_branch false true p q r h = refl
  same_branch false false p q r h = refl

  other_branch :
      (b c : Bool) (p q r : A)
      → (b ≡ true → c ≡ true → p ≡ q)
      → (if b then q else if c then p else r) ≡ (if c then p else if b then q else r)
  other_branch true true p q r h = sym (h refl refl)
  other_branch true false p q r h = refl
  other_branch false true p q r h = refl
  other_branch false false p q r h = refl

FitsState-scanning :
    (s : DirLifecycle) (total accounted load : ℕ)
    → FitsState s total accounted load
    → 0 < load
    → s ≡ dir_scanning
FitsState-scanning dir_calibrating total accounted load h p = absurd (omega arith)
FitsState-scanning dir_scanning total accounted load h p = refl
FitsState-scanning dir_done total accounted load h p = absurd (omega arith)

module _ {F : Type 0} where
  -- What a directory counts fits its load: the candidates of it that wait or are in flight.
  abbrev pub Fits : Option (DirState F) → ℕ → Type 0
  Fits none load = load ≡ 0
  Fits (some ds) load = FitsState ds.state ds.candidates_total ds.candidates_accounted_for load

  abbrev pub IsConserved : Dirs F → (String → ℕ) → Type 0
  IsConserved dirs load = (d : String) → Fits (lookup d dirs) (load d)

  abbrev pub in_dir : String → Candidate F → Bool
  in_dir d c = str_eq c.parent_dir d

  pub lookup-store :
      (e d : String) (v : DirState F) (dirs : Dirs F)
      → lookup e (store d v dirs) ≡ (if str_eq d e then some v else lookup e dirs)
  unfolding lookup store
  lookup-store e d v [] = refl
  lookup-store e d v (x ∷ dirs) =
      if-elim (λ (t : Dirs F). lookup e t ≡ (if str_eq d e then some v else lookup e (x ∷ dirs)))
        (str_eq x.0 d)
        (λ h.
          let same : x.0 ≡ d = (eq_iff x.0 d).0 h in
          let test : str_eq x.0 e ≡ str_eq d e = ap (λ (k : String). str_eq k e) same in
          same_branch (str_eq x.0 e) (str_eq d e) (some v) (some x.1) (lookup e dirs) test)
        (λ h.
          ap (λ (o : Option (DirState F)). if str_eq x.0 e then some x.1 else o)
            (lookup-store e d v dirs)
          ∙ other_branch (str_eq x.0 e) (str_eq d e) (some v) (some x.1) (lookup e dirs) (λ b c.
            let k : x.0 ≡ d = (eq_iff x.0 e).0 b ∙ sym ((eq_iff d e).0 c) in
            let t = (eq_iff x.0 d).1 k in cc))

  -- A directory's new state, whose load fits, beside directories that fit already
  pub store_rest-IsConserved :
      (dirs : Dirs F) (after : String → ℕ) (d : String) (v : DirState F)
      → Fits (some v) (after d)
      → ((e : String) → str_eq d e ≡ false → Fits (lookup e dirs) (after e))
      → IsConserved (store d v dirs) after
  store_rest-IsConserved dirs after d v fit others e =
      subst (λ (o : Option (DirState F)). Fits o (after e)) (sym (lookup-store e d v dirs))
        (if-elim (λ (o : Option (DirState F)). Fits o (after e)) (str_eq d e)
          (λ u. subst (λ (k : String). Fits (some v) (after k)) ((eq_iff d e).0 u) fit)
          (λ u. others e u))

  pub IsConserved-same :
      (s : Scan F) (before after : String → ℕ)
      → ((d : String) → before d ≡ after d)
      → IsConserved s.dirs before
      → IsConserved s.dirs after
  IsConserved-same s before after e h d = subst (Fits (lookup d s.dirs)) (e d) (h d)

  -- The same beside directories whose load stays
  pub store-IsConserved :
      (dirs : Dirs F) (before after : String → ℕ) (d : String) (v : DirState F)
      → IsConserved dirs before
      → Fits (some v) (after d)
      → ((e : String) → str_eq d e ≡ false → after e ≡ before e)
      → IsConserved (store d v dirs) after
  store-IsConserved dirs before after d v h fit others =
      store_rest-IsConserved dirs after d v fit
        (λ e u. subst (λ (n : ℕ). Fits (lookup e dirs) n) (sym (others e u)) (h e))

  -- A store is not seen at another key.
  pub lookup-store_ne :
      (e d : String) (v : DirState F) (dirs : Dirs F)
      → str_eq d e ≡ false
      → lookup e (store d v dirs) ≡ lookup e dirs
  lookup-store_ne e d v dirs u =
      lookup-store e d v dirs ∙ ap (λ (b : Bool). if b then some v else lookup e dirs) u

  -- A directory with a load is being scanned.
  pub loaded-IsScanning :
      (o : Option (DirState F)) (load : ℕ)
      → Fits o load
      → 0 < load
      → (ds : DirState F) × (o ≡ some ds) × (ds.state ≡ dir_scanning)
  loaded-IsScanning none load h p = absurd (omega arith)
  loaded-IsScanning (some ds) load h p = (ds, refl, FitsState-scanning ds.state _ _ load h p)

  pub account-Fits :
      (ds : DirState F) (load : ℕ)
      → ds.state ≡ dir_scanning
      → Fits (some ds) (suc load)
      → Fits (some (account ds)) load
  unfolding account maybe_finish_dir
  account-Fits ds load e h =
      let k =
        subst
          (λ (s : DirLifecycle).
            FitsState s ds.candidates_total ds.candidates_accounted_for (suc load))
          e h in
      let grown = ds.candidates_accounted_for + 1 in
      if-elim (λ (v : DirState F). Fits (some v) load) (leb ds.candidates_total grown)
        (λ u. (ground (arith, k, u), ground (arith, k, u)))
        (λ u.
          subst (λ (s : DirLifecycle). FitsState s ds.candidates_total grown load) (sym e)
            (omega (arith, k), ground (arith, k, u)))
