-- ===== src/Engine/Frontier/Tests.antt =====
-- Concrete runs of internal/engine/frontier.go.
use smart_buster.Prelude.{
  ℕ, zero, suc, ◌+◌, Bool, true, ◌≡◌, ◌⊎◌, refl, [], ◌∷◌, arith, leb, length, count_if,
}
use smart_buster.Prelude.Float.{hundredths, hundredths-IsOrdered}
use smart_buster.Heap
use smart_buster.Engine.Types.{Candidate, type_dir}
use smart_buster.Engine.Frontier.{Frontier, push, pop, pop_band, is_at, remove_matching}
use smart_buster.Engine.Frontier.Order.{
  IsValid, IsBest, TakesOut, pop-IsBest, remove_matching-IsValid,
}
use smart_buster.Engine.Frontier.Sampling.{pop_band-IsBest}

abbrev candidate : ℕ → Candidate ℕ
candidate score = record {
  path = "admin";
  kind = type_dir;
  base_prio = 0;
  score = score;
  depth = 1;
  parent_dir = "";
  provenance = "wordlist";
  tags = [];
}

-- Four candidates, as three pushes leave them
abbrev queued : Frontier ℕ
queued = candidate 90 ∷ candidate 50 ∷ candidate 88 ∷ candidate 20 ∷ []

queued_lem :
    push (candidate 90) (push (candidate 20) (push (candidate 88) (push (candidate 50) [])))
    ≡ candidate 90 ∷ candidate 88 ∷ candidate 20 ∷ candidate 50 ∷ []
unfolding push Heap.push Heap.up Heap.up_loop Heap.swap
queued_lem = refl

pop-queued : pop queued ≡ (candidate 90, candidate 88 ∷ candidate 50 ∷ candidate 20 ∷ [])
unfolding pop Heap.pop Heap.pop_last Heap.down Heap.down_loop Heap.child Heap.swap
pop-queued = refl

queued-IsValid : IsValid queued
queued-IsValid zero c0 cn kc = elim c0 [ ]
queued-IsValid (suc zero) c0 cn kc = refl
queued-IsValid (suc (suc zero)) c0 cn kc = refl
queued-IsValid (suc (suc (suc zero))) c0 cn kc = refl
queued-IsValid (suc (suc (suc (suc c)))) c0 cn kc = absurd (omega arith)

pop-IsBest_example :
    IsBest (pop queued).0 queued × TakesOut (pop queued) queued × IsValid (pop queued).1
pop-IsBest_example = pop-IsBest queued queued-IsValid (omega arith)

remove_matching-IsValid_example :
    let r = remove_matching (is_at "" "admin") queued in
    IsValid r.1
    × ((p : Candidate ℕ → Bool) → count_if p r.0 + count_if p r.1 ≡ count_if p queued)
    × (count_if (is_at "" "admin") r.0 ≡ length r.0)
    × (count_if (is_at "" "admin") r.1 ≡ 0)
remove_matching-IsValid_example = remove_matching-IsValid (is_at "" "admin") queued

pop_band-IsBest_example :
    let r = pop_band 7 5 queued in
    TakesOut r queued × IsValid r.1 × (IsBest r.0 queued ⊎ (leb 85 r.0.score ≡ true))
pop_band-IsBest_example = pop_band-IsBest 7 5 queued queued-IsValid (omega arith) refl

abbrev demote : Candidate ℕ → Candidate ℕ
demote c = candidate 10
