-- ===== src/Daemon/Server/Effect.antt =====
-- What a control request changes.
use smart_buster.Prelude.{
  ◌≡◌, inl, inr, refl, sym, ap, ◌∙◌, Option, none, some, List, [], ◌∷◌, ◌++◌, String, str_eq,
  eq_iff, arith, if◌then◌else◌, if-elim, Bool-cases, Option-cases, apart,
}
use smart_buster.Engine.Coordinator.Control.{
  ControlCmd, pause, resume, stop, snapshot, adjust, pin, exclude, boost, demote, inject,
}
use smart_buster.Daemon.Scan.{Scan, tracked, submit_control, track, control}
use smart_buster.Daemon.Server.{
  Request, get, set_scan, control_in, submit, with_scan, handle_control,
}

module _ {F : Type 0} where
  abbrev or_same : Scan F → Option (Scan F) → Option (Scan F)
  or_same scan none = some scan
  or_same scan (some controlled) = some controlled

  -- A command that is there and a scan that runs give the scan with the command sent.
  abbrev pub commanded : Option (ControlCmd F) → Option (Scan F) → Option (Scan F)
  commanded none found = found
  commanded (some cmd) none = none
  commanded (some cmd) (some scan) = or_same scan (control cmd scan)

  get_id : (id : String) (scans : List (Scan F)) (s : Scan F) → get id scans ≡ some s → s.id ≡ id
  unfolding get
  get_id id [] s h = cc h
  get_id id (t ∷ ts) s h = elim (Bool-cases (str_eq t.id id)) [
    | inl u ↦
        let here : some t ≡ some s = rw u at h in
        let same : t ≡ s = cc here in ap (λ (x : Scan F). x.id) (sym same) ∙ (eq_iff t.id id).0 u
    | inr u ↦ let there : get id ts ≡ some s = rw u at h in get_id id ts s there
  ]

  get-set_scan :
      (id j : String) (new : Scan F) (scans : List (Scan F)) (old : Scan F)
      → new.id ≡ id
      → get id scans ≡ some old
      → get j (set_scan id new scans) ≡ (if str_eq id j then some new else get j scans)
  unfolding get set_scan
  get-set_scan id j new [] old e h = cc h
  get-set_scan id j new (t ∷ ts) old e h = elim (Bool-cases (str_eq t.id id)) [
    | inl u ↦ rw (u, e, (eq_iff t.id id).0 u) (ground arith)
    | inr u ↦
        let there : get id ts ≡ some old = rw u at h in
        let rest = get-set_scan id j new ts old e there in
        rw (u, rest) (apart t.id id j (some t) (some new) (get j ts) u)
  ]

  id-track : (cmd : ControlCmd F) (s : Scan F) → (track cmd s).id ≡ s.id
  unfolding track
  id-track pause s = refl
  id-track resume s = refl
  id-track stop s = refl
  id-track snapshot s = refl
  id-track (adjust r n m) s = refl
  id-track (pin p) s = refl
  id-track (exclude p) s = refl
  id-track (boost p factor) s = refl
  id-track (demote p factor) s = refl
  id-track (inject terms) s = refl

  id-control : (cmd : ControlCmd F) (s t : Scan F) → control cmd s ≡ some t → t.id ≡ s.id
  unfolding control submit_control
  id-control cmd s t h =
      if-elim (λ (o : Option (Scan F)). tracked cmd o ≡ some t → t.id ≡ s.id) s.is_running
        (λ u e.
          let same : track cmd (record s { sent = s.sent ++ cmd ∷ [] }) ≡ t = cc e in
          ap (λ (x : Scan F). x.id) (sym same) ∙ id-track cmd _)
        (λ u e. cc e) h

  kept :
      (id j : String) (scans : List (Scan F)) (found : Option (Scan F))
      → get id scans ≡ found
      → get j scans ≡ (if str_eq id j then found else get j scans)
  kept id j scans found e = elim (Bool-cases (str_eq id j)) [
    | inl u ↦ rw u (ap (λ x. get x scans) (sym ((eq_iff id j).0 u)) ∙ e)
    | inr u ↦ rw u refl
  ]

  effect_of :
      (cmd : Option (ControlCmd F)) (id : String) (scans : List (Scan F)) (j : String)
      (found : Option (Scan F))
      → get id scans ≡ found
      → get j (with_scan found scans (λ (scan : Scan F). submit cmd scan scans)).1
        ≡ (if str_eq id j then commanded cmd found else get j scans)
  unfolding control_in
  effect_of none id scans j none e = kept id j scans none e
  effect_of (some cmd) id scans j none e = kept id j scans none e
  effect_of none id scans j (some s) e = kept id j scans (some s) e
  effect_of (some cmd) id scans j (some s) e = elim (Option-cases (control cmd s)) [
    | inl u ↦ rw u (kept id j scans (some s) e)
    | inr (t, u) ↦
        let own = get_id id scans s e in
        rw (u, own) (get-set_scan id j t scans s (id-control cmd s t u ∙ own) e)
  ]

  -- A control request that is let through leaves every other scan as it was, and does to its own
  -- scan what Scan.Control does: nothing where the body has no command, or where the run is over.
  pub handle_control-one :
      (cmd : Option (ControlCmd F)) (r : Request F) (scans : List (Scan F)) (j : String)
      → get j (handle_control cmd r scans).1
        ≡ (if str_eq r.id j then commanded cmd (get j scans) else get j scans)
  unfolding handle_control
  handle_control-one cmd r scans j =
      effect_of cmd r.id scans j (get r.id scans) refl
      ∙ if-elim
          (λ (x : Option (Scan F)).
            (if str_eq r.id j then commanded cmd (get r.id scans) else get j scans) ≡ x)
          (str_eq r.id j) (λ u. rw (u, (eq_iff r.id j).0 u) refl) (λ u. rw u refl)
