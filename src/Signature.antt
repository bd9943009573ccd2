-- ===== src/Signature.antt =====
-- internal/types/types.go: a response's signature, a directory's baseline, a classification.
use smart_buster.Prelude.{ℕ, String, Bool, List, Option}

-- `simhash` and `raw_body_hash` are uint64 values; `elapsed` is in nanoseconds; the bytes of
-- HarvestBody are `none` for Go's nil.
pub record ResponseSignature : Type 0 where
  pub status : ℕ
  pub body_len : ℕ
  pub word_count : ℕ
  pub simhash : ℕ
  pub raw_body_hash : ℕ
  pub redirect_to : String
  pub content_type : String
  pub set_cookie : Bool
  pub reflected : Bool
  pub elapsed : ℕ
  pub norm_body : String
  pub has_index_of : Bool
  pub harvest_body : Option String

pub record Baseline (F : Type 0) : Type 0 where
  pub dir : String
  pub samples : List ResponseSignature
  pub noise_floor : ℕ
  pub len_mean : F
  pub len_std_dev : F
  pub rep_status : ℕ
  pub rep_simhash : ℕ
  pub rep_redirect : String
  pub is_wildcard : Bool
  pub is_spa : Bool
  pub rep_body : String

-- The text of Classification.Reason, one for each string in Classify.
pub data Reason : Type 0 where
  no_reason matches_redirect in_wildcard in_noise_floor diverges : Reason

-- `confidence` is the float64 value in units of 2 ^ -56.
pub record Classification : Type 0 where
  pub is_hit : Bool
  pub confidence : ℕ
  pub reason : Reason

-- ResponseSignature{}
abbrev pub empty_signature : ResponseSignature
empty_signature = record {
  status = 0;
  body_len = 0;
  word_count = 0;
  simhash = 0;
  raw_body_hash = 0;
  redirect_to = "";
  content_type = "";
  set_cookie = Bool.false;
  reflected = Bool.false;
  elapsed = 0;
  norm_body = "";
  has_index_of = Bool.false;
  harvest_body = Option.none;
}
