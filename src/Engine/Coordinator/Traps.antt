-- ===== src/Engine/Coordinator/Traps.antt =====
-- What keeps the recursion of internal/engine/coordinator.go bounded (isDirectory, withinLimits,
-- checkWildcardHitRate, checkTarpit), and learnableHit of internal/engine/dynamic.go.
use smart_buster.Prelude.{
  ℕ, ◌+◌, ◌-◌, Bool, true, false, not, ◌&&◌, ◌||◌, Option, none, some, List, [], ◌∷◌, ◌++◌, String,
  str_eq, ltb, leb, ◌==◌, if◌then◌else◌, length, drop, count_if, any_of,
}
use smart_buster.Prelude.Int.{pos, negsuc}
use smart_buster.Prelude.Float.{Float}
use smart_buster.Signature.{ResponseSignature}
use smart_buster.Engine.Types.{Candidate, CandidateType, type_dir}
use smart_buster.Engine.Coordinator.{DirState, Policy, url_of}
use smart_buster.Engine.Coordinator.Calibrating.{median_duration}

abbrev pub wildcard_window : ℕ
wildcard_window = 20

abbrev pub tarpit_window : ℕ
tarpit_window = 10

-- appendCappedBool and appendCappedDuration
unfoldable pub append_capped {ℓ} : {A : Type ℓ} → List A → A → ℕ → List A
append_capped buf v most =
    let grown = buf ++ v ∷ [] in
    if ltb most (length grown) then drop (length grown - most) grown else grown

abbrev pub file_like_content_types : List String
file_like_content_types =
    "application/octet-stream" ∷ "application/zip" ∷ "application/gzip" ∷ "application/x-tar"
    ∷ "application/pdf" ∷ "application/x-rar-compressed" ∷ "image/png" ∷ "image/jpeg" ∷ "image/gif"
    ∷ "image/svg+xml" ∷ "image/webp" ∷ "image/x-icon" ∷ "font/woff" ∷ "font/woff2" ∷ "audio/mpeg"
    ∷ "video/mp4" ∷ []

unfoldable pub is_file_like_content_type : String → Bool
is_file_like_content_type ct = any_of (str_eq ct) file_like_content_types

abbrev pub is_type_dir : CandidateType → Bool
is_type_dir type_dir = true
is_type_dir _ = false

unfoldable pub is_directory : CandidateType → ResponseSignature → Bool
unfolding is_file_like_content_type
is_directory kind sig =
    if not (is_type_dir kind)
    then false
    else if sig.status == 301 || sig.status == 302
    then true
    else if sig.status == 401 || sig.status == 403
    then true
    else if leb 200 sig.status && ltb sig.status 300
    then not (is_file_like_content_type sig.content_type)
    else false

module _ {F : Type 0} ⦃f : Float F⦄ where
  abbrev pub recurse_min_conf : F
  recurse_min_conf = f.lit 7 10

  abbrev pub wildcard_hit_rate : F
  wildcard_hit_rate = f.lit 9 10

  unfoldable pub is_wildcard_rate : DirState F → Bool
  is_wildcard_rate ds =
      let hits = count_if (λ (b : Bool). b) ds.recent_hits in
      not (ds.wildcard_suspect || ltb (length ds.recent_hits) wildcard_window)
      && f.le wildcard_hit_rate (f.div (f.lit hits 1) (f.lit (length ds.recent_hits) 1))

  unfoldable pub check_wildcard_hit_rate : DirState F → DirState F
  unfolding is_wildcard_rate
  check_wildcard_hit_rate ds =
      if is_wildcard_rate ds then record ds { wildcard_suspect = true } else ds

  -- `d >= time.Duration(limit)`
  unfoldable pub at_least : F → ℕ → Bool
  at_least limit d = elim (f.to_int limit) [ pos n ↦ leb n d | negsuc n ↦ true ]

  unfoldable pub is_tarpit : Policy F → DirState F → Bool
  unfolding at_least median_duration
  is_tarpit policy ds =
      not (ds.capped || ltb (length ds.recent_elapsed) tarpit_window)
      && at_least (f.mul (f.lit 9 10) (f.lit policy.request_timeout 1))
          (median_duration ds.recent_elapsed)

  unfoldable pub check_tarpit : Policy F → DirState F → DirState F
  unfolding is_tarpit
  check_tarpit policy ds = if is_tarpit policy ds then record ds { capped = true } else ds

  unfoldable pub within_limits : Policy F → ℕ → Candidate F → Option (DirState F) → Bool
  within_limits policy now c ds =
      if ltb policy.max_depth (c.depth + 1)
      then false
      else if not (policy.in_scope (url_of policy c.parent_dir c.path))
      then false
      else elim ds [
        | none ↦ true
        | some d ↦
            if d.capped || d.wildcard_suspect
            then false
            else not
                (ltb 0 policy.time_per_branch && leb policy.time_per_branch (now - d.branch_start))
      ]

  -- The baseline's flag is that of the hit's directory.
  unfoldable pub learnable_hit : Policy F → F → Option (DirState F) → Bool → Bool
  learnable_hit policy confidence ds is_spa =
      if f.lt confidence policy.learn_min_conf
      then false
      else if elim ds [ none ↦ false | some d ↦ d.wildcard_suspect ]
      then false
      else not is_spa
