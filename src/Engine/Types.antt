-- ===== src/Engine/Types.antt =====
-- The messages and records of internal/engine/types.go.
use smart_buster.Prelude.{ℕ, Bool, String, List, [], Option}
use smart_buster.Prelude.Float.{Float}
use smart_buster.Signature.{ResponseSignature}

pub data CandidateType : Type 0 where
  type_dir type_file type_stem type_full_path : CandidateType

pub record Candidate (F : Type 0) : Type 0 where
  pub path : String
  pub kind : CandidateType
  pub base_prio : F
  pub score : F
  pub depth : ℕ
  pub parent_dir : String
  pub provenance : String
  pub tags : List String

pub record Finding (F : Type 0) : Type 0 where
  pub url : String
  pub status : ℕ
  pub size : ℕ
  pub confidence : F
  pub provenance : String
  pub content_hash : ℕ
  pub aliases : List String

-- The request headers are left to the client.
pub record WorkItem (F : Type 0) : Type 0 where
  pub candidate : Candidate F
  pub url : String
  pub is_probe : Bool
  pub probe_tag : String
  pub is_harvest_fetch : Bool

-- A result without a signature is one with an error.
pub record WorkResult (F : Type 0) : Type 0 where
  pub item : WorkItem F
  pub signature : Option ResponseSignature

module _ {F : Type 0} ⦃f : Float F⦄ where
  -- The zero value of a candidate
  abbrev pub zero_candidate : Candidate F
  zero_candidate = record {
    path = "";
    kind = type_dir;
    base_prio = f.lit 0 1;
    score = f.lit 0 1;
    depth = 0;
    parent_dir = "";
    provenance = "";
    tags = [];
  }
