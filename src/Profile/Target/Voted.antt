-- ===== src/Profile/Target/Voted.antt =====
-- What the votes for a technology come to.
use mathlib.Core.Path.{subst}
use smart_buster.Prelude.{
  ◌+◌, ◌<◌, ltb, false, ◌≡◌, ◌≢◌, ◌⊎◌, refl, sym, ap, ◌∙◌, Option, none, some, List, [], ◌∷◌,
  String, str_eq, eq_iff, arith, if◌then◌else◌, if-elim, Bool-cases, inl, inr, length,
  length-append,
}
use smart_buster.Prelude.Float.{Float, IsOrdered}
use smart_buster.Profile.Target.{
  TechLayer, layer_backend, layer_edge, layer_unknown, Tech, LayerVotes, TargetProfile, Vote,
  count_layer, majority_layer, new_target_profile, tech_of, store_tech, tech_or_fresh, fuse,
  voted_tech, vote,
}
use smart_buster.Profile.Target.Tally.{
  total_count_layer, plus, votes_path, refl_plus, bump, unnamed, tally, tech_of-name,
  tech_of-store_tech,
}

-- Where the votes for the backend and for the edge put a technology
abbrev pub IsMajority : LayerVotes → TechLayer → Type 0
IsMajority v layer =
    ((v.edge < v.backend) × (layer ≡ layer_backend))
    ⊎ ((v.backend < v.edge) × (layer ≡ layer_edge))
    ⊎ ((v.backend ≡ v.edge) × (layer ≡ layer_unknown))

majority_layer-IsMajority : (v : LayerVotes) → IsMajority v (majority_layer v)
unfolding majority_layer
majority_layer-IsMajority v =
    if-elim (IsMajority v) (ltb v.edge v.backend) (λ u. inl (ground (arith, u), refl))
      (λ u.
        if-elim (IsMajority v) (ltb v.backend v.edge) (λ w. inr (inl (ground (arith, w), refl)))
          (λ w. inr (inr (ground (arith, u, w), refl))))

module _ {F : Type 0} ⦃f : Float F⦄ ⦃o : IsOrdered F⦄ where
  unfoldable pub cast : List (Vote F) → TargetProfile F → TargetProfile F
  unfolding vote
  cast [] p = p
  cast (v ∷ vs) p = cast vs (vote v p)

  -- What is known of a technology whose votes are these
  IsVoted : Option (Tech F) → LayerVotes → Type 0
  IsVoted none v = v.backend + v.edge + v.unknown ≡ 0
  IsVoted (some t) v =
      (t.layer ≡ majority_layer v)
      × (f.lt (f.lit 99 100) t.confidence ≡ false)
      × (length t.sources ≡ v.backend + v.edge + v.unknown)

  fuse_bounded : (old new : F) → f.lt (f.lit 99 100) (fuse old new) ≡ false
  fuse_bounded old new =
      if-elim (λ (x : F). f.lt (f.lit 99 100) x ≡ false) _ (λ u. o.lt_irrefl (f.lit 99 100))
        (λ u. u)

  voted_tech-IsVoted :
      (v : Vote F) (found : Option (Tech F)) (votes : LayerVotes)
      → IsVoted found votes
      → IsVoted
          (some (voted_tech v (count_layer v.layer votes) (tech_or_fresh found v)))
          (count_layer v.layer votes)
  unfolding IsVoted voted_tech
  voted_tech-IsVoted v none votes h =
      (refl, fuse_bounded _ _, omega (arith, total_count_layer v.layer votes, h))
  voted_tech-IsVoted v (some t) votes h = (
    refl,
    fuse_bounded _ _,
    omega (arith, total_count_layer v.layer votes, h.2, length-append t.sources (v.source ∷ [])),
  )

  name-tech_or_fresh :
      (v : Vote F) (found : Option (Tech F)) (ts : List (Tech F))
      → tech_of v.name ts ≡ found
      → (tech_or_fresh found v).name ≡ v.name
  name-tech_or_fresh v none ts h = refl
  name-tech_or_fresh v (some t) ts h = tech_of-name v.name ts t h

  name-voted_tech :
      (v : Vote F) (votes : LayerVotes) (t : Tech F) → (voted_tech v votes t).name ≡ t.name
  unfolding voted_tech
  name-voted_tech v votes t = refl

  stored-IsVoted :
      (new : Tech F) (key : String) (ts : List (Tech F)) (name : String) (votes old : LayerVotes)
      → new.name ≡ key
      → IsVoted (some new) votes
      → IsVoted (tech_of name ts) old
      → IsVoted (tech_of name (store_tech new ts)) (if str_eq key name then votes else old)
  stored-IsVoted new key ts name votes old named hn ho =
      let there : tech_of name (store_tech new ts)
          ≡ (if str_eq key name then some new else tech_of name ts) =
        tech_of-store_tech name new ts
        ∙ ap (λ (k : String). if str_eq k name then some new else tech_of name ts) named in
      rw there (elim (Bool-cases (str_eq key name)) [ inl w ↦ rw w hn | inr w ↦ rw w ho ])

  vote-IsVoted :
      (v : Vote F) (p : TargetProfile F)
      → ((name : String) → IsVoted (tech_of name p.tech) (p.layer_votes name))
      → (name : String) → IsVoted (tech_of name (vote v p).tech) ((vote v p).layer_votes name)
  unfolding vote
  vote-IsVoted v p h name =
      let votes = count_layer v.layer (p.layer_votes v.name) in
      let new = voted_tech v votes (tech_or_fresh (tech_of v.name p.tech) v) in
      let named : new.name ≡ v.name =
        name-voted_tech v votes (tech_or_fresh (tech_of v.name p.tech) v)
        ∙ name-tech_or_fresh v (tech_of v.name p.tech) p.tech refl in
      if-elim (λ (q : TargetProfile F). IsVoted (tech_of name q.tech) (q.layer_votes name))
        (str_eq v.name "") (λ u. h name)
        (λ u.
          stored-IsVoted new v.name p.tech name votes (p.layer_votes name) named
            (voted_tech-IsVoted v (tech_of v.name p.tech) (p.layer_votes v.name) (h v.name))
            (h name))

  cast-IsVoted :
      (vs : List (Vote F)) (p : TargetProfile F)
      → ((name : String) → IsVoted (tech_of name p.tech) (p.layer_votes name))
      → (name : String) → IsVoted (tech_of name (cast vs p).tech) ((cast vs p).layer_votes name)
  unfolding cast
  cast-IsVoted [] p h name = h name
  cast-IsVoted (v ∷ vs) p h name = cast-IsVoted vs (vote v p) (vote-IsVoted v p h) name

  cast-tallies :
      (vs : List (Vote F)) (p : TargetProfile F) (name : String)
      → name ≢ ""
      → (cast vs p).layer_votes name ≡ plus (p.layer_votes name) (tally name vs)
  unfolding cast vote
  cast-tallies [] p name h = refl_plus (p.layer_votes name)
  cast-tallies (v ∷ vs) p name h =
      cast-tallies vs (vote v p) name h
      ∙ if-elim
          (λ (q : TargetProfile F).
            plus (q.layer_votes name) (tally name vs)
            ≡ plus (p.layer_votes name) (tally name (v ∷ vs)))
          (str_eq v.name "")
          (λ u.
            let other : str_eq v.name name ≡ false = unnamed v.name name u h in
            rw other (votes_path (omega arith) (omega arith) (omega arith)))
          (λ u. elim (Bool-cases (str_eq v.name name)) [
            | inl w ↦ rw w (
                ap (λ (k : String). plus (count_layer v.layer (p.layer_votes k)) (tally name vs))
                  ((eq_iff v.name name).0 w)
                ∙ bump v.layer (p.layer_votes name) (tally name vs))
            | inr w ↦ rw w (votes_path (omega arith) (omega arith) (omega arith))
          ])

  -- After any votes on a new profile, a technology stands in the backend layer if it has more votes
  -- for that than for the edge, in the edge layer if it has more for that, and in the unknown one if
  -- it has as many for both, however many votes name the unknown layer; its confidence is not
  -- above 0.99; and it has a source for each of its votes. Its name is not empty.
  pub cast_exact :
      (host : String) (vs : List (Vote F)) (name : String) (t : Tech F)
      → name ≢ ""
      → tech_of name (cast vs (new_target_profile host)).tech ≡ some t
      → IsMajority (tally name vs) t.layer
        × (f.lt (f.lit 99 100) t.confidence ≡ false)
        × (length t.sources
            ≡ (tally name vs).backend + (tally name vs).edge + (tally name vs).unknown)
  unfolding new_target_profile tech_of IsVoted
  cast_exact host vs name t named h =
      let start = new_target_profile host in
      let voted : IsVoted (some t) ((cast vs start).layer_votes name) =
        subst (λ x. IsVoted x ((cast vs start).layer_votes name)) h
          (cast-IsVoted vs start (λ k. refl) name) in
      let same : (cast vs start).layer_votes name ≡ tally name vs =
        cast-tallies vs start name named ∙ votes_path (omega arith) (omega arith) (omega arith) in
      let (layer, confidence, sources) = subst (IsVoted (some t)) same voted in
      (
        subst (IsMajority (tally name vs)) (sym layer) (majority_layer-IsMajority (tally name vs)),
        confidence,
        sources,
      )
