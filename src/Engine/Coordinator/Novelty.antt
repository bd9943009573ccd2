-- ===== src/Engine/Coordinator/Novelty.antt =====
-- The novelty gate of handleHit in internal/engine/coordinator.go: content that was seen before is
-- an alias of the first finding with it.
use smart_buster.Prelude.{
  ℕ, Bool, true, false, ◌||◌, List, [], ◌∷◌, ◌++◌, String, ◌==◌, if◌then◌else◌,
}
use smart_buster.Prelude.Float.{Float}
use smart_buster.Signature.{ResponseSignature}
use smart_buster.Engine.Types.{Finding}

-- seenContent and findings
pub record Found (F : Type 0) : Type 0 where
  pub seen_content : List (ℕ × List String)
  pub findings : List (Finding F)

unfoldable pub is_seen : ℕ → List (ℕ × List String) → Bool
is_seen hash [] = false
is_seen hash (e ∷ es) = e.0 == hash || is_seen hash es

-- `seenContent[hash] = append(existing, url)`
unfoldable pub add_seen : ℕ → String → List (ℕ × List String) → List (ℕ × List String)
add_seen hash url [] = (hash, url ∷ []) ∷ []
add_seen hash url (e ∷ es) =
    let rest = add_seen hash url es in
    if e.0 == hash then (hash, e.1 ++ url ∷ []) ∷ es else e ∷ rest

module _ {F : Type 0} ⦃f : Float F⦄ where
  -- The loop that gives the first finding with the content the address as an alias
  unfoldable pub add_alias : ℕ → String → List (Finding F) → List (Finding F)
  add_alias hash url [] = []
  add_alias hash url (x ∷ xs) =
      let rest = add_alias hash url xs in
      if x.content_hash == hash then record x { aliases = x.aliases ++ url ∷ [] } ∷ xs else x ∷ rest

  -- A hit with content that was seen is an alias; another one is a finding. The flag tells which.
  unfoldable pub record_hit : String → String → ResponseSignature → F → Found F → Bool × Found F
  unfolding is_seen add_seen add_alias
  record_hit url provenance sig confidence found =
      let hash = sig.raw_body_hash in
      if is_seen hash found.seen_content
      then (
        false,
        record {
          seen_content = add_seen hash url found.seen_content;
          findings = add_alias hash url found.findings;
        },
      )
      else (
        true,
        record {
          seen_content = add_seen hash url found.seen_content;
          findings =
              found.findings
              ++ record {
                url = url;
                status = sig.status;
                size = sig.body_len;
                confidence = confidence;
                provenance = provenance;
                content_hash = hash;
                aliases = [];
              }
                ∷ [];
        },
      )
