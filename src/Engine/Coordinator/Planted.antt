-- ===== src/Engine/Coordinator/Planted.antt =====
-- Seeds of any depth, and the book-keeping of the directories.
use smart_buster.Prelude.{
  ℕ, ◌+◌, List, [], ◌∷◌, String, str_eq, str_append, ltb, if◌then◌else◌, if-elim, length,
}
use smart_buster.Prelude.Float.{Float, IsOrdered}
use smart_buster.Prelude.Text.{trim, split}
use smart_buster.Engine.Coordinator.{Policy, Scan}
use smart_buster.Engine.Coordinator.Template.{Words}
use smart_buster.Seed.{Seed}
use smart_buster.Engine.Coordinator.Paths.{
  seed_ancestor_dirs, is_harvest_provenance, last_or, ensure_dir_chain, seed_candidate,
  enqueue_seed, cap_batch, enqueue_seeds, apply_seed_batch,
}
use smart_buster.Engine.Coordinator.Staged.{IsBooked, stage_dir_candidate-IsBooked}
use smart_buster.Engine.Coordinator.Accounted.{enqueue_child_directory-IsBooked}

module _ {F : Type 0} ⦃f : Float F⦄ ⦃o : IsOrdered F⦄ where
  ensure_dir_chain-IsBooked :
      (policy : Policy F) (words : Words F) (now : ℕ) (tokens : String → List String)
      (dirs : List String) (i : ℕ) (parent : String) (prio : F) (provenance : String) (s : Scan F)
      (flight : String → ℕ)
      → IsBooked flight s
      → IsBooked flight (ensure_dir_chain policy words now tokens dirs i parent prio provenance s)
  unfolding ensure_dir_chain
  ensure_dir_chain-IsBooked policy words now tokens [] i parent prio provenance s flight h = h
  ensure_dir_chain-IsBooked policy words now tokens (d ∷ ds) i parent prio provenance s flight h =
      ensure_dir_chain-IsBooked policy words now tokens ds (i + 1) d prio provenance _ flight (
        stage_dir_candidate-IsBooked policy _ _ flight (
          enqueue_child_directory-IsBooked policy words d (i + 1) parent now (tokens d) s flight h))

  pub enqueue_seed-IsBooked :
      (policy : Policy F) (words : Words F) (crawl_depth now : ℕ) (tokens : String → List String)
      (sd : Seed F) (s : Scan F) (flight : String → ℕ)
      → IsBooked flight s
      → IsBooked flight (enqueue_seed policy words crawl_depth now tokens sd s)
  unfolding enqueue_seed
  enqueue_seed-IsBooked policy words crawl_depth now tokens sd s flight h =
      let path = trim b'/' sd.path in
      let segments = split b'/' path in
      let max_depth =
        if is_harvest_provenance sd.provenance then crawl_depth else policy.max_depth in
      let ancestors = seed_ancestor_dirs path in
      let dir = last_or "" ancestors in
      if-elim (IsBooked flight) (str_eq path "") (λ u. h)
        (λ u.
          if-elim (IsBooked flight) (ltb max_depth (length segments)) (λ v. h)
            (λ v.
              if-elim (IsBooked flight)
                (policy.in_scope (str_append (str_append policy.target "/") path))
                (λ w.
                  stage_dir_candidate-IsBooked policy (seed_candidate sd segments dir) _ flight (
                    ensure_dir_chain-IsBooked policy words now tokens ancestors 0 "" sd.base_prio
                      sd.provenance s flight h))
                (λ w. h)))

  enqueue_seeds-IsBooked :
      (policy : Policy F) (words : Words F) (crawl_depth now : ℕ) (tokens : String → List String)
      (sds : List (Seed F)) (s : Scan F) (flight : String → ℕ)
      → IsBooked flight s
      → IsBooked flight (enqueue_seeds policy words crawl_depth now tokens sds s)
  unfolding enqueue_seeds
  enqueue_seeds-IsBooked policy words crawl_depth now tokens [] s flight h = h
  enqueue_seeds-IsBooked policy words crawl_depth now tokens (sd ∷ sds) s flight h =
      enqueue_seeds-IsBooked policy words crawl_depth now tokens sds _ flight
        (enqueue_seed-IsBooked policy words crawl_depth now tokens sd s flight h)

  -- A batch of seeds keeps the book-keeping, with all the directories that its paths open and the
  -- candidates that it stages in them.
  pub apply_seed_batch-IsBooked :
      (policy : Policy F) (words : Words F) (crawl_depth now : ℕ) (tokens : String → List String)
      (seeds : List (Seed F)) (s : Scan F) (flight : String → ℕ)
      → IsBooked flight s
      → IsBooked flight (apply_seed_batch policy words crawl_depth now tokens seeds s)
  unfolding apply_seed_batch
  apply_seed_batch-IsBooked policy words crawl_depth now tokens seeds s flight h =
      enqueue_seeds-IsBooked policy words crawl_depth now tokens (cap_batch s.dirs seeds) s flight h
