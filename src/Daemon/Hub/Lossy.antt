-- ===== src/Daemon/Hub/Lossy.antt =====
-- The hits of a slow client of internal/daemon/hub.go.
use smart_buster.Prelude.{
  ℕ, suc, ◌+◌, ◌≤◌, Bool, true, false, not, ◌≡◌, refl, sym, ap, ◌∙◌, Option, none, some, List, [],
  ◌∷◌, ◌++◌, arith, ltb, leb, if◌then◌else◌, if-elim, leb→le, length, drop, length-append,
  length-drop, all_of,
}
use smart_buster.Daemon.Hub.{
  Event, Message, single, coalesced, Lane, lane_important, lane_latest, lane_hit, classify,
  client_buf_cap, Client, is_stats, put_latest, put_hit, put, enqueue, next_hit, next_lossy,
  next_latest, next_important, next,
}

-- One atomic operation on a client: an event that arrives, or a message that is taken
pub data Op : Type 0 where
  offer : Event → Op
  pull : Bool → Op

abbrev pub message_list : Option Message → List Message
message_list none = []
message_list (some m) = m ∷ []

unfoldable pub run : List Op → Client → Client × List Message
run [] cl = (cl, [])
run (offer ev ∷ ops) cl = run ops (enqueue ev cl).0
run (pull b ∷ ops) cl =
    let (m, after) = next b cl in let (end, rest) = run ops after in (end, message_list m ++ rest)

abbrev pub is_hit : Lane → Bool
is_hit lane_hit = true
is_hit _ = false

-- The hits among the events that arrive
abbrev pub hits_offered : List Op → ℕ
hits_offered [] = 0
hits_offered (offer ev ∷ ops) = (if is_hit (classify ev) then 1 else 0) + hits_offered ops
hits_offered (pull b ∷ ops) = hits_offered ops

-- The hits that a message stands for
abbrev pub hits_in : Message → ℕ
hits_in (single ev) = if is_hit (classify ev) then 1 else 0
hits_in (coalesced n) = n

abbrev pub hits_sent : List Message → ℕ
hits_sent [] = 0
hits_sent (m ∷ ms) = hits_in m + hits_sent ms

abbrev pub is_hit_event : Event → Bool
is_hit_event ev = is_hit (classify ev)

abbrev pub other_option : Option Event → Bool
other_option none = true
other_option (some ev) = not (is_hit (classify ev))

-- The buffers hold the events of their lanes, and no more hits than the bound.
pub record IsSorted (cl : Client) : Type 0 where
  pub important_lane : all_of (λ (ev : Event). not (is_hit_event ev)) cl.important ≡ true
  pub stats_lane : other_option cl.latest_stats ≡ true
  pub snapshot_lane : other_option cl.latest_snapshot ≡ true
  pub hits_lane : all_of is_hit_event cl.hits ≡ true
  pub hits_bound : length cl.hits ≤ client_buf_cap

-- The hits that a client keeps, and those that it will report as a count
abbrev pub hits_held : Client → ℕ
hits_held cl = length cl.hits + cl.hit_dropped

module _ {A : Type 0} where
  all_of-append :
      (p : A → Bool) (xs : List A) (x : A)
      → all_of p xs ≡ true
      → p x ≡ true
      → all_of p (xs ++ x ∷ []) ≡ true
  all_of-append p [] x h e = ground (arith, e)
  all_of-append p (y ∷ ys) x h e = ground (arith, h, all_of-append p ys x (ground (arith, h)) e)

  all_of-drop_one : (p : A → Bool) (xs : List A) → all_of p xs ≡ true → all_of p (drop 1 xs) ≡ true
  all_of-drop_one p [] h = refl
  all_of-drop_one p (x ∷ xs) h = ground (arith, h)

-- An operation that keeps the client sorted and sends as many hits as it gives up
abbrev Sends : Client → Option Message × Client → Type 0
Sends cl r =
    IsSorted r.1
    × (hits_held cl ≡ hits_sent (message_list r.0) + hits_held r.1)
    × (r.1.closed ≡ cl.closed)

next_hit-Sends :
    (cl : Client) (hits : List Event) → cl.hits ≡ hits → IsSorted cl → Sends cl (next_hit cl hits)
unfolding next_hit
next_hit-Sends cl [] e h = (h, omega arith, refl)
next_hit-Sends cl (ev ∷ hits) e h =
    let size : length cl.hits ≡ suc (length hits) = ap length e in
    let lane : all_of is_hit_event (ev ∷ hits) ≡ true =
      ap (all_of is_hit_event) (sym e) ∙ h.hits_lane in
    let own : is_hit_event ev ≡ true = ground (arith, lane) in
    (
      record {
        important_lane = h.important_lane;
        stats_lane = h.stats_lane;
        snapshot_lane = h.snapshot_lane;
        hits_lane = ground (arith, lane);
        hits_bound = omega (arith, h.hits_bound, size);
      },
      ground (arith, own, size),
      refl,
    )

next_lossy-Sends : (cl : Client) → IsSorted cl → Sends cl (next_lossy cl)
unfolding next_lossy
next_lossy-Sends cl h =
    if-elim (Sends cl) (ltb 0 cl.hit_dropped)
      {x = (some (coalesced cl.hit_dropped), record cl { hit_dropped = 0 })}
      {y = next_hit cl cl.hits}
      (λ u. (
        record {
          important_lane = h.important_lane;
          stats_lane = h.stats_lane;
          snapshot_lane = h.snapshot_lane;
          hits_lane = h.hits_lane;
          hits_bound = h.hits_bound;
        },
        omega arith,
        refl,
      ))
      (λ u. next_hit-Sends cl cl.hits refl h)

pass_stats :
    (cl : Client) (a : Event)
    → cl.latest_stats ≡ some a
    → IsSorted cl
    → Sends cl (some (single a), record cl { latest_stats = none })
pass_stats cl a e h =
    let lane : other_option (some a) ≡ true = ap other_option (sym e) ∙ h.stats_lane in
    (
      record {
        important_lane = h.important_lane;
        stats_lane = refl;
        snapshot_lane = h.snapshot_lane;
        hits_lane = h.hits_lane;
        hits_bound = h.hits_bound;
      },
      ground (arith, lane),
      refl,
    )

pass_snapshot :
    (cl : Client) (a : Event)
    → cl.latest_snapshot ≡ some a
    → IsSorted cl
    → Sends cl (some (single a), record cl { latest_snapshot = none })
pass_snapshot cl a e h =
    let lane : other_option (some a) ≡ true = ap other_option (sym e) ∙ h.snapshot_lane in
    (
      record {
        important_lane = h.important_lane;
        stats_lane = h.stats_lane;
        snapshot_lane = refl;
        hits_lane = h.hits_lane;
        hits_bound = h.hits_bound;
      },
      ground (arith, lane),
      refl,
    )

next_latest-Sends :
    (b : Bool) (cl : Client) (x y : Option Event)
    → cl.latest_stats ≡ x
    → cl.latest_snapshot ≡ y
    → IsSorted cl
    → Sends cl (next_latest b cl x y)
unfolding next_latest
next_latest-Sends b cl none none e u h = next_lossy-Sends cl h
next_latest-Sends b cl (some a) none e u h = pass_stats cl a e h
next_latest-Sends b cl none (some c) e u h = pass_snapshot cl c u h
next_latest-Sends b cl (some a) (some c) e u h =
    if-elim (Sends cl) b {x = (some (single a), record cl { latest_stats = none })}
      {y = (some (single c), record cl { latest_snapshot = none })} (λ v. pass_stats cl a e h)
      (λ v. pass_snapshot cl c u h)

next_important-Sends :
    (b : Bool) (cl : Client) (important : List Event)
    → cl.important ≡ important
    → IsSorted cl
    → Sends cl (next_important b cl important)
unfolding next_important
next_important-Sends b cl [] e h =
    next_latest-Sends b cl cl.latest_stats cl.latest_snapshot refl refl h
next_important-Sends b cl (ev ∷ important) e h =
    let lane : all_of (λ (x : Event). not (is_hit_event x)) (ev ∷ important) ≡ true =
      ap (all_of (λ (x : Event). not (is_hit_event x))) (sym e) ∙ h.important_lane in
    (
      record {
        important_lane = ground (arith, lane);
        stats_lane = h.stats_lane;
        snapshot_lane = h.snapshot_lane;
        hits_lane = h.hits_lane;
        hits_bound = h.hits_bound;
      },
      ground (arith, lane),
      refl,
    )

next-Sends : (b : Bool) (cl : Client) → IsSorted cl → Sends cl (next b cl)
unfolding next
next-Sends b cl h = next_important-Sends b cl cl.important refl h

-- An event that arrives
abbrev Takes : Event → Client → Client → Type 0
Takes ev cl after =
    IsSorted after
    × (hits_held after ≡ hits_held cl + (if is_hit_event ev then 1 else 0))
    × (after.closed ≡ false)

put_hit-Takes :
    (ev : Event) (cl : Client)
    → IsSorted cl
    → cl.closed ≡ false
    → is_hit_event ev ≡ true
    → Takes ev cl (put_hit ev cl).0
unfolding put_hit
put_hit-Takes ev cl h e own =
    if-elim (λ (r : Client × Bool). Takes ev cl r.0) (leb client_buf_cap (length cl.hits))
      {x = (
        record cl { hits = drop 1 cl.hits ++ ev ∷ []; hit_dropped = cl.hit_dropped + 1 },
        false,
      )}
      {y = (record cl { hits = cl.hits ++ ev ∷ [] }, true)}
      (λ u.
        let size = length-append (drop 1 cl.hits) (ev ∷ []) in
        let rest = length-drop 1 cl.hits in
        let full = leb→le client_buf_cap (length cl.hits) u in
        (
          record {
            important_lane = h.important_lane;
            stats_lane = h.stats_lane;
            snapshot_lane = h.snapshot_lane;
            hits_lane =
                all_of-append is_hit_event (drop 1 cl.hits) ev
                  (all_of-drop_one is_hit_event cl.hits h.hits_lane) own;
            hits_bound = omega (arith, h.hits_bound, size, rest);
          },
          ground (arith, size, rest, own, full),
          e,
        ))
      (λ u.
        let size = length-append cl.hits (ev ∷ []) in
        (
          record {
            important_lane = h.important_lane;
            stats_lane = h.stats_lane;
            snapshot_lane = h.snapshot_lane;
            hits_lane = all_of-append is_hit_event cl.hits ev h.hits_lane own;
            hits_bound = ground (arith, size, u);
          },
          ground (arith, size, own),
          e,
        ))

put_latest-Takes :
    (ev : Event) (cl : Client)
    → IsSorted cl
    → cl.closed ≡ false
    → not (is_hit_event ev) ≡ true
    → Takes ev cl (put_latest ev cl)
unfolding put_latest
put_latest-Takes ev cl h e other =
    if-elim (Takes ev cl) (is_stats ev.kind) {x = record cl { latest_stats = some ev }}
      {y = record cl { latest_snapshot = some ev }}
      (λ u. (
        record {
          important_lane = h.important_lane;
          stats_lane = other;
          snapshot_lane = h.snapshot_lane;
          hits_lane = h.hits_lane;
          hits_bound = h.hits_bound;
        },
        ground (arith, other),
        e,
      ))
      (λ u. (
        record {
          important_lane = h.important_lane;
          stats_lane = h.stats_lane;
          snapshot_lane = other;
          hits_lane = h.hits_lane;
          hits_bound = h.hits_bound;
        },
        ground (arith, other),
        e,
      ))

put-Takes :
    (ev : Event) (lane : Lane) (cl : Client)
    → classify ev ≡ lane
    → IsSorted cl
    → cl.closed ≡ false
    → Takes ev cl (put ev lane cl).0
unfolding put
put-Takes ev lane_important cl own h e =
    let other : not (is_hit_event ev) ≡ true = ap (λ (l : Lane). not (is_hit l)) own in
    (
      record {
        important_lane =
            all_of-append (λ (x : Event). not (is_hit_event x)) cl.important ev h.important_lane
              other;
        stats_lane = h.stats_lane;
        snapshot_lane = h.snapshot_lane;
        hits_lane = h.hits_lane;
        hits_bound = h.hits_bound;
      },
      ground (arith, other),
      e,
    )
put-Takes ev lane_latest cl own h e =
    put_latest-Takes ev cl h e (ap (λ (l : Lane). not (is_hit l)) own)
put-Takes ev lane_hit cl own h e = put_hit-Takes ev cl h e (ap is_hit own)

enqueue-Takes :
    (ev : Event) (cl : Client) → IsSorted cl → cl.closed ≡ false → Takes ev cl (enqueue ev cl).0
unfolding enqueue
enqueue-Takes ev cl h e =
    if-elim (λ (r : Client × Bool). Takes ev cl r.0) cl.closed {x = (cl, false)}
      {y = put ev (classify ev) cl} (λ u. absurd (ground (arith, u, e)))
      (λ u. put-Takes ev (classify ev) cl refl h e)

hits_sent_append :
    (m : Option Message) (ms : List Message)
    → hits_sent (message_list m ++ ms) ≡ hits_sent (message_list m) + hits_sent ms
hits_sent_append none ms = omega arith
hits_sent_append (some m) ms = omega arith

-- However the client keeps up, no hit is lost uncounted: the hits that arrive at an open client
-- are those that were sent one by one, those that were sent as counts, and those that it still
-- holds or will report. It never holds more than 256 of them.
pub run_conserves :
    (ops : List Op) (cl : Client)
    → IsSorted cl
    → cl.closed ≡ false
    → (hits_held cl + hits_offered ops ≡ hits_sent (run ops cl).1 + hits_held (run ops cl).0)
      × (length (run ops cl).0.hits ≤ client_buf_cap)
unfolding run
run_conserves [] cl h e = (omega arith, h.hits_bound)
run_conserves (offer ev ∷ ops) cl h e =
    let t = enqueue-Takes ev cl h e in
    let rest = run_conserves ops (enqueue ev cl).0 t.0 t.2 in (omega (arith, t.1, rest.0), rest.1)
run_conserves (pull b ∷ ops) cl h e =
    let t = next-Sends b cl h in
    let rest = run_conserves ops (next b cl).1 t.0 (t.2 ∙ e) in
    (omega (arith, t.1, rest.0, hits_sent_append (next b cl).0 (run ops (next b cl).1).1), rest.1)
