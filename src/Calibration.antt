-- ===== src/Calibration.antt =====
-- internal/calibration/calibration.go: the baseline of a directory from its probes, and the
-- classification of a response against it.
pub mod Spread
mod Tests
pub mod Medoid
pub mod Verdict
pub mod Groups
use smart_buster.Prelude.{
  ℕ, zero, suc, ◌+◌, ◌*◌, ◌-◌, ◌/◌, ◌%◌, String, Bool, true, false, not, ◌&&◌, ◌||◌, Option, none,
  some, List, [], ◌∷◌, ltb, leb, ◌==◌, if◌then◌else◌, length, take, drop, str_eq, max, get_elem?,
}
use smart_buster.Prelude.Float.{Float}
use smart_buster.Simhash.{hamming}
use smart_buster.Signature.{
  ResponseSignature, Baseline, Classification, empty_signature, no_reason, matches_redirect,
  in_wildcard, in_noise_floor, diverges,
}

abbrev pub n_probes : ℕ
n_probes = 5

abbrev pub hamming_margin : ℕ
hamming_margin = 3

abbrev pub spa_self_sim : ℕ
spa_self_sim = 2

abbrev pub wildcard_self_sim : ℕ
wildcard_self_sim = 4

abbrev pub ext_set : List String
ext_set = "" ∷ ".php" ∷ ".html" ∷ []

unfoldable pub status_class : ℕ → ℕ
status_class n = n / 100

-- The loop of minHamming; `none` is the -1 that `min` starts from.
unfoldable pub min_hamming_from : Option ℕ → ℕ → List ResponseSignature → Option ℕ
min_hamming_from least h [] = least
min_hamming_from none h (s ∷ samples) = min_hamming_from (some (hamming h s.simhash)) h samples
min_hamming_from (some m) h (s ∷ samples) =
    min_hamming_from (some (if ltb (hamming h s.simhash) m then hamming h s.simhash else m)) h
      samples

unfoldable pub or_zero : Option ℕ → ℕ
or_zero none = 0
or_zero (some m) = m

unfoldable pub min_hamming : ℕ → List ResponseSignature → ℕ
unfolding min_hamming_from or_zero
min_hamming h samples = or_zero (min_hamming_from none h samples)

-- The inner loop over j > i, from the maximum so far.
unfoldable pub max_hamming_to : ℕ → ResponseSignature → List ResponseSignature → ℕ
max_hamming_to most p [] = most
max_hamming_to most p (q ∷ probes) =
    let d = hamming p.simhash q.simhash in max_hamming_to (if ltb most d then d else most) p probes

unfoldable pub max_pairwise_from : ℕ → List ResponseSignature → ℕ
unfolding max_hamming_to
max_pairwise_from most [] = most
max_pairwise_from most (p ∷ probes) = max_pairwise_from (max_hamming_to most p probes) probes

unfoldable pub max_pairwise_hamming : List ResponseSignature → ℕ
unfolding max_pairwise_from
max_pairwise_hamming probes = max_pairwise_from 0 probes

-- The `for i := 0; i < len(probes); i += chunk` loop of probesByExt, on what is left of the
-- probes. Each round takes at least one, so `length probes` rounds are enough.
unfoldable pub chunks : ℕ → ℕ → List ResponseSignature → List (List ResponseSignature)
chunks zero chunk probes = []
chunks (suc fuel) chunk [] = []
chunks (suc fuel) chunk (p ∷ probes) =
    take chunk (p ∷ probes) ∷ chunks fuel chunk (drop chunk (p ∷ probes))

unfoldable pub probes_by_ext : List String → List ResponseSignature → List (List ResponseSignature)
unfolding chunks
probes_by_ext exts probes =
    let num_exts = length exts in
    let chunk = length probes / num_exts in
    if num_exts == 0 || length probes == 0
    then []
    else if chunk == 0
    then probes ∷ []
    else chunks (length probes) chunk probes

-- The loops of noiseFloorFromProbes over groups and their pairs share one maximum.
unfoldable pub max_in_groups : ℕ → List (List ResponseSignature) → ℕ
unfolding max_pairwise_from
max_in_groups most [] = most
max_in_groups most (group ∷ groups) = max_in_groups (max_pairwise_from most group) groups

unfoldable pub noise_floor_from_probes : List String → List ResponseSignature → ℕ
unfolding max_in_groups probes_by_ext
noise_floor_from_probes exts probes = max_in_groups 0 (probes_by_ext exts probes) + hamming_margin

-- The inner loop of medoid: the total distance of probe i, its own left out.
unfoldable pub distance_sum : ℕ → ℕ → ℕ → ℕ → List ResponseSignature → ℕ
distance_sum sum i j h [] = sum
distance_sum sum i j h (q ∷ probes) =
    distance_sum (if i == j then sum else sum + hamming h q.simhash) i (suc j) h probes

-- The outer loop, over the probes from index i; `none` is a `bestSum` of -1.
unfoldable pub medoid_from :
    List ResponseSignature
    → Option ℕ
    → ResponseSignature
    → ℕ
    → List ResponseSignature
    → ResponseSignature
unfolding distance_sum
medoid_from all best_sum best i [] = best
medoid_from all none best i (p ∷ probes) =
    medoid_from all (some (distance_sum 0 i 0 p.simhash all)) p (suc i) probes
medoid_from all (some best_sum) best i (p ∷ probes) =
    let sum = distance_sum 0 i 0 p.simhash all in
    medoid_from all (some (if ltb sum best_sum then sum else best_sum))
      (if ltb sum best_sum then p else best) (suc i) probes

-- `best := 0` stands for the first probe.
unfoldable pub medoid : List ResponseSignature → ResponseSignature
unfolding medoid_from
medoid [] = empty_signature
medoid (p ∷ probes) = medoid_from (p ∷ probes) none p 0 (p ∷ probes)

unfoldable pub all_status : ℕ → List ResponseSignature → Bool
all_status status [] = true
all_status status (p ∷ probes) =
    if not (p.status == status) then false else all_status status probes

unfoldable pub all_html : List ResponseSignature → Bool
all_html [] = true
all_html (p ∷ probes) = if not (str_eq p.content_type "text/html") then false else all_html probes

unfoldable pub looks_like_standard404 : ResponseSignature → Bool
looks_like_standard404 rep = rep.status == 404 || rep.status == 410

-- float64 sums in [1/2, 1), in units of 2 ^ -56: a double there is a multiple of 2 ^ -53, which
-- is 8 units, and addition rounds to the nearest, ties to even.
unfoldable pub round_half_even : ℕ → ℕ
round_half_even x =
    let q = x / 8 in
    let r = x % 8 in 8 * (if ltb r 4 then q else if ltb 4 r then q + 1 else q + q % 2)

abbrev pub conf_half : ℕ
conf_half = 36028797018963968

abbrev pub conf_fifth : ℕ
conf_fifth = 14411518807585588

abbrev pub conf_tenth : ℕ
conf_tenth = 7205759403792794

abbrev pub conf_95 : ℕ
conf_95 = 68454714336031536

abbrev pub conf_90 : ℕ
conf_90 = 64851834634135144

abbrev pub conf_99 : ℕ
conf_99 = 71337018097548656

abbrev pub conf_85 : ℕ
conf_85 = 61248954932238744

-- `conf += x` under its test
unfoldable pub raise_if : Bool → ℕ → ℕ → ℕ
unfolding round_half_even
raise_if test x conf = if test then round_half_even (conf + x) else conf

unfoldable pub hit_confidence : Bool → Bool → Bool → ℕ → ℕ
unfolding raise_if
hit_confidence other_class far odd_length status =
    let conf =
      raise_if odd_length conf_tenth
        (raise_if far conf_fifth (raise_if other_class conf_fifth conf_half)) in
    let capped = if ltb conf_99 conf then conf_99 else conf in
    if status == 401 || status == 403 then max capped conf_85 else capped

module _ {F : Type 0} ⦃f : Float F⦄ where
  unfoldable pub sum_from : F → List F → F
  sum_from sum [] = sum
  sum_from sum (v ∷ vals) = sum_from (f.add sum v) vals

  unfoldable pub squares_from : F → F → List F → F
  squares_from mean sum [] = sum
  squares_from mean sum (v ∷ vals) =
      squares_from mean (f.add sum (f.mul (f.sub v mean) (f.sub v mean))) vals

  unfoldable pub mean_std_dev : List F → F × F
  unfolding sum_from squares_from
  mean_std_dev [] = (f.lit 0 1, f.lit 0 1)
  mean_std_dev (v ∷ vals) =
      let n = f.lit (length (v ∷ vals)) 1 in
      let mean = f.div (sum_from (f.lit 0 1) (v ∷ vals)) n in
      (mean, f.sqrt (f.div (squares_from mean (f.lit 0 1) (v ∷ vals)) n))

  unfoldable pub body_lens : List ResponseSignature → List F
  body_lens [] = []
  body_lens (p ∷ probes) = f.lit p.body_len 1 ∷ body_lens probes

  unfoldable pub calibrate : String → List String → List ResponseSignature → Baseline F
  calibrate dir exts probes =
      let rep = medoid probes in
      let lens = mean_std_dev (body_lens probes) in
      let is_spa =
        all_status 200 probes
        && all_html probes
        && leb (max_pairwise_hamming probes) spa_self_sim in
      record {
        dir = dir;
        samples = probes;
        noise_floor = noise_floor_from_probes exts probes;
        len_mean = lens.0;
        len_std_dev = lens.1;
        rep_status = rep.status;
        rep_simhash = rep.simhash;
        rep_redirect = rep.redirect_to;
        is_wildcard =
            not is_spa
            && not (looks_like_standard404 rep)
            && leb (max_pairwise_hamming probes) wildcard_self_sim;
        is_spa = is_spa;
        rep_body = rep.norm_body;
      }

  -- math.Abs and math.Max
  abbrev pub abs_float : F → F
  abs_float x = if f.lt x (f.lit 0 1) then f.sub (f.lit 0 1) x else x

  abbrev pub max_float : F → F → F
  max_float x y = if f.lt x y then y else x

  unfoldable pub len_z : ResponseSignature → Baseline F → F
  len_z sig b =
      f.div (abs_float (f.sub (f.lit sig.body_len 1) b.len_mean))
        (max_float b.len_std_dev (f.lit 1 1))

  unfoldable pub classify : ResponseSignature → Baseline F → Classification
  classify sig b =
      let d = min_hamming sig.simhash b.samples in
      if not (str_eq sig.redirect_to "") && str_eq sig.redirect_to b.rep_redirect
      then record { is_hit = false; confidence = conf_95; reason = matches_redirect }
      else if b.is_wildcard && leb d b.noise_floor
      then record { is_hit = false; confidence = conf_90; reason = in_wildcard }
      else if leb d b.noise_floor
      then record { is_hit = false; confidence = conf_90; reason = in_noise_floor }
      else record {
        is_hit = true;
        confidence =
            hit_confidence (not (status_class sig.status == status_class b.rep_status))
              (ltb (2 * b.noise_floor) d) (f.lt (f.lit 3 1) (len_z sig b)) sig.status;
        reason = diverges;
      }

  unfoldable pub distance : ResponseSignature → Baseline F → ℕ
  distance sig b = min_hamming sig.simhash b.samples
