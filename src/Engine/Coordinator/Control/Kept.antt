-- ===== src/Engine/Coordinator/Control/Kept.antt =====
-- Control commands, and the book-keeping of the directories.
use mathlib.Core.Path.{subst}
use smart_buster.Prelude.{
  ℕ, ◌≡◌, refl, sym, ◌∙◌, ltb, Option, none, some, List, [], ◌∷◌, String, str_eq, arith, if-elim,
}
use smart_buster.Prelude.Float.{Float, IsOrdered}
use smart_buster.Engine.Types.{Candidate}
use smart_buster.Engine.Frontier.Order.{reprioritize-IsValid}
use smart_buster.Engine.Coordinator.{Override, ov_boost, Policy, Scan}
use smart_buster.Engine.Coordinator.Template.{Words}
use smart_buster.Engine.Coordinator.Conserved.{IsConserved-same, in_dir}
use smart_buster.Engine.Coordinator.Staged.{IsBooked, apply_exclude-IsBooked}
use smart_buster.Engine.Coordinator.Planted.{enqueue_seed-IsBooked}
use smart_buster.Engine.Coordinator.Control.{
  ControlCmd, pause, resume, stop, snapshot, adjust, pin, exclude, boost, demote, inject,
  Controlled, is_glob_pattern, add_override, apply_override, apply_pin, scoring_under, pin_score,
  user_seed, inject_terms, apply_adjust, apply_preset, set_mode, set_rate_of, set_concurrency,
  apply_control,
}

module _ {F : Type 0} ⦃f : Float F⦄ ⦃o : IsOrdered F⦄ where
  add_override-IsBooked :
      (rescore : List (Override F) → Candidate F → F) (ov : Override F) (s : Scan F)
      (flight : String → ℕ)
      → IsBooked flight s
      → IsBooked flight (add_override rescore ov s)
  unfolding add_override
  add_override-IsBooked rescore ov s flight h =
      IsConserved-same s _ _ (λ d. omega (arith, (reprioritize-IsValid _ s.frontier).1 (in_dir d)))
        h

  inject_terms-IsBooked :
      (policy : Policy F) (words : Words F) (crawl_depth now : ℕ) (tokens : String → List String)
      (terms : List String) (s : Scan F) (flight : String → ℕ)
      → IsBooked flight s
      → IsBooked flight (inject_terms policy words crawl_depth now tokens terms s)
  unfolding inject_terms
  inject_terms-IsBooked policy words crawl_depth now tokens [] s flight h = h
  inject_terms-IsBooked policy words crawl_depth now tokens (term ∷ terms) s flight h =
      inject_terms-IsBooked policy words crawl_depth now tokens terms _ flight (
        if-elim (IsBooked flight) (str_eq term "") (λ u. h)
          (λ u.
            enqueue_seed-IsBooked policy words crawl_depth now tokens (user_seed term "user") s
              flight h))

  scan-set_mode : (mode : Option String) (c : Controlled F) → (set_mode mode c).scan ≡ c.scan
  unfolding apply_preset
  scan-set_mode none c = refl
  scan-set_mode (some mode) c = refl

  scan-set_rate_of : (rate : Option F) (c : Controlled F) → (set_rate_of rate c).scan ≡ c.scan
  scan-set_rate_of none c = refl
  scan-set_rate_of (some rate) c = refl

  scan-set_concurrency :
      (concurrency : Option ℕ) (c : Controlled F) → (set_concurrency concurrency c).scan ≡ c.scan
  scan-set_concurrency none c = refl
  scan-set_concurrency (some n) c =
      if-elim (λ (out : Controlled F). out.scan ≡ c.scan) (ltb 0 n) (λ u. refl) (λ u. refl)

  scan-apply_adjust :
      (rate : Option F) (concurrency : Option ℕ) (mode : Option String) (c : Controlled F)
      → (apply_adjust rate concurrency mode c).scan ≡ c.scan
  unfolding apply_adjust
  scan-apply_adjust rate concurrency mode c =
      scan-set_concurrency concurrency (set_rate_of rate (set_mode mode c))
      ∙ scan-set_rate_of rate (set_mode mode c)
      ∙ scan-set_mode mode c

  -- Every command of the user keeps the book-keeping of the directories: if each candidate that a
  -- directory counts was accounted for, waiting or in flight before the command, so it is behind it.
  pub apply_control-IsBooked :
      (rescore : List (Override F) → Candidate F → F) (policy : Policy F) (words : Words F)
      (crawl_depth now : ℕ) (tokens : String → List String) (cmd : ControlCmd F) (c : Controlled F)
      (flight : String → ℕ)
      → IsBooked flight c.scan
      → IsBooked flight (apply_control rescore policy words crawl_depth now tokens cmd c).scan
  unfolding apply_control apply_override apply_pin
  apply_control-IsBooked rescore policy words crawl_depth now tokens pause c flight h = h
  apply_control-IsBooked rescore policy words crawl_depth now tokens resume c flight h = h
  apply_control-IsBooked rescore policy words crawl_depth now tokens stop c flight h = h
  apply_control-IsBooked rescore policy words crawl_depth now tokens snapshot c flight h = h
  apply_control-IsBooked rescore policy words crawl_depth now tokens (adjust r n m) c flight h =
      subst (IsBooked flight) (sym (scan-apply_adjust r n m c)) h
  apply_control-IsBooked rescore policy words crawl_depth now tokens (pin pattern) c flight h =
      let boosted : Override F = record {
        pattern = pattern;
        kind = ov_boost;
        factor = pin_score;
      } in
      let out = add_override rescore boosted c.scan in
      let pinned = add_override-IsBooked rescore boosted c.scan flight h in
      if-elim (IsBooked flight) (is_glob_pattern pattern) (λ u. pinned)
        (λ u.
          enqueue_seed-IsBooked (scoring_under rescore out policy) words crawl_depth now tokens
            (user_seed pattern "user:pin") out flight pinned)
  apply_control-IsBooked rescore policy words crawl_depth now tokens (exclude pattern) c flight h =
      apply_exclude-IsBooked policy pattern c.scan flight h
  apply_control-IsBooked rescore policy words crawl_depth now tokens (boost p factor) c flight h =
      add_override-IsBooked rescore _ c.scan flight h
  apply_control-IsBooked rescore policy words crawl_depth now tokens (demote p factor) c flight h =
      add_override-IsBooked rescore _ c.scan flight h
  apply_control-IsBooked rescore policy words crawl_depth now tokens (inject terms) c flight h =
      inject_terms-IsBooked (scoring_under rescore c.scan policy) words crawl_depth now tokens terms
        c.scan flight h
