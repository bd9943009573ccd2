-- ===== src/Engine/Backoff/Ring.antt =====
-- The ring of responses that detectWAFOnset of internal/engine/coordinator.go reads.
use smart_buster.Prelude.{
  ℕ, zero, suc, ◌+◌, ◌-◌, ◌≤◌, Bool, true, false, ◌≡◌, refl, ◌∙◌, ap, ◌⊎◌, inl, inr, List, [], ◌∷◌,
  ◌++◌, arith, length, drop, ltb, if◌then◌else◌, count_if, length-append, length-drop, Bool-cases,
  all_of, ◌↔◌,
}
use mathlib.Core.List.{append_assoc, append-nil}
use smart_buster.Engine.Backoff.{
  WafSample, waf_ring_size, push_sample, novel_run_from, is_onset, is_refusal,
}

unfoldable pub push_samples : List WafSample → List WafSample → List WafSample
unfolding push_sample
push_samples [] ring = ring
push_samples (s ∷ ss) ring = push_samples ss (push_sample s ring)

-- The newest `n` entries.
abbrev pub newest : ℕ → List WafSample → List WafSample
newest n xs = drop (length xs - n) xs

drop-append-one :
    (n : ℕ) (xs : List WafSample) (y : WafSample)
    → n ≤ length xs
    → drop n (xs ++ y ∷ []) ≡ drop n xs ++ y ∷ []
drop-append-one zero xs y h = refl
drop-append-one (suc n) [] y h = elim h [ ]
drop-append-one (suc n) (x ∷ xs) y h = drop-append-one n xs y (omega arith)

drop-drop : (n : ℕ) (xs : List WafSample) → drop 1 (drop n xs) ≡ drop (suc n) xs
drop-drop zero xs = refl
drop-drop (suc n) [] = refl
drop-drop (suc n) (x ∷ xs) = drop-drop n xs

push_sample-drop :
    (k : ℕ) (s : WafSample) (seen : List WafSample)
    → k ≤ length seen
    → push_sample s (drop k seen) ≡ (
        if ltb 20 (length seen - k + 1)
        then drop (suc k) (seen ++ s ∷ [])
        else drop k (seen ++ s ∷ []))
unfolding push_sample
push_sample-drop k s seen h =
    rw (← drop-append-one k seen s h) (rw (size, drop-drop k (seen ++ s ∷ [])) refl)
  where
    size : length (drop k (seen ++ s ∷ [])) ≡ length seen - k + 1
    size = omega (arith, length-drop k (seen ++ s ∷ []), length-append seen (s ∷ []))

drop_at : (k m : ℕ) (xs : List WafSample) → k ≡ m → drop k xs ≡ drop m xs
drop_at k m xs e = ap (λ (i : ℕ). drop i xs) e

choose_drop :
    (n m : ℕ) (xs : List WafSample)
    → m ≡ n + 1
    → (if ltb 20 (n - (n - 20) + 1) then drop (suc (n - 20)) xs else drop (n - 20) xs)
      ≡ drop (m - 20) xs
choose_drop n m xs e = elim (Bool-cases (ltb 20 (n - (n - 20) + 1))) [
  | inl over ↦ rw over (drop_at (suc (n - 20)) (m - 20) xs (ground arith))
  | inr room ↦ rw room (drop_at (n - 20) (m - 20) xs (ground arith))
]

-- The ring of the newest samples, and one more.
push_sample-newest :
    (s : WafSample) (seen : List WafSample)
    → push_sample s (newest waf_ring_size seen) ≡ newest waf_ring_size (seen ++ s ∷ [])
push_sample-newest s seen =
    push_sample-drop (length seen - 20) s seen (omega arith)
    ∙ choose_drop (length seen) (length (seen ++ s ∷ [])) (seen ++ s ∷ [])
        (omega (arith, length-append seen (s ∷ [])))

push_samples-newest :
    (ss seen : List WafSample)
    → push_samples ss (newest waf_ring_size seen) ≡ newest waf_ring_size (seen ++ ss)
unfolding push_samples
push_samples-newest [] seen = rw (append-nil seen)
push_samples-newest (s ∷ ss) seen =
    ap (push_samples ss) (push_sample-newest s seen)
    ∙ push_samples-newest ss (seen ++ s ∷ [])
    ∙ ap (newest waf_ring_size) (append_assoc seen (s ∷ []) ss)

-- After any responses, the ring that starts empty holds the newest 20 of them in order: at most
-- 20, and every one while there are no more.
pub push_samples_lem :
    (ss : List WafSample)
    → (push_samples ss [] ≡ newest waf_ring_size ss)
      × (length (push_samples ss []) ≤ waf_ring_size)
      × (length ss ≤ waf_ring_size → push_samples ss [] ≡ ss)
push_samples_lem ss =
    let e : push_samples ss [] ≡ newest waf_ring_size ss = push_samples-newest ss [] in
    (
      e,
      rw e (omega (arith, length-drop (length ss - 20) ss)),
      λ short. e ∙ drop_at (length ss - 20) 0 ss (omega arith),
    )

abbrev pub is_novel : WafSample → Bool
is_novel s = s.novel

novel_run_from-all :
    (ys : List WafSample) (run : ℕ)
    → all_of is_novel ys ≡ true
    → novel_run_from run ys ≡ run + length ys
unfolding novel_run_from
novel_run_from-all [] run h = omega arith
novel_run_from-all (y ∷ ys) run h = ground (arith, novel_run_from-all ys (run + 1))

novel_run_from-restart :
    (xs ys : List WafSample) (run : ℕ) (s : WafSample)
    → s.novel ≡ false
    → novel_run_from run (xs ++ s ∷ ys) ≡ novel_run_from 0 ys
unfolding novel_run_from
novel_run_from-restart [] ys run s h = ground arith
novel_run_from-restart (x ∷ xs) ys run s h =
    novel_run_from-restart xs ys (if x.novel then run + 1 else 0) s h

-- A ring is an onset exactly when at least 5 of its responses are a 429 or a 403, or when the
-- run of novel responses that ends it is at least 8 long: the part after its last sample that is
-- not novel, or the whole of a ring that has none.
pub is_onset_exact :
    (before run : List WafSample) (s : WafSample)
    → s.novel ≡ false
    → all_of is_novel run ≡ true
    → ((is_onset (before ++ s ∷ run) ≡ true)
        ↔ ((5 ≤ count_if is_refusal (before ++ s ∷ run)) ⊎ (8 ≤ length run)))
      × ((is_onset run ≡ true) ↔ ((5 ≤ count_if is_refusal run) ⊎ (8 ≤ length run)))
unfolding is_onset
is_onset_exact before run s h k =
    rw (novel_run_from-restart before run 0 s h, novel_run_from-all run 0 k)
      ((λ e. ground arith, λ e. ground arith), (λ e. ground arith, λ e. ground arith))
