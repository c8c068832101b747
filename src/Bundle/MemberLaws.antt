-- ===== src/Bundle/MemberLaws.antt =====
-- src/patchharbor/bundle_paths.py, normalize_bundle_path: what is accepted is kept as it is.
use mathlib.Core.Path.{subst⁻¹}
use patch_harbor.Base.{
  ◌<◌, Answers-require, ap, ◌≡◌, refl, ◌≤◌, Bool, true, false, ◌||◌, not, List, [], ◌∷◌, ◌++◌, leb,
  leb→le, length, all, contains, nat_eq, Result, ok, err, ◌>>=◌, require, Answers, arith,
}
use patch_harbor.Bundle.Member.{
  Text, BundlePathError, unsafe_path, is_allowed, segments, joined, ends_with, without_last,
  candidate, add_to_first, is_empty, starts_with, normalize_bundle_path,
}

joined-add_to_first : (c : _) (ss : List Text) → joined (add_to_first c ss) ≡ c ∷ joined ss
unfolding joined
joined-add_to_first c [] = refl
joined-add_to_first c (s ∷ []) = refl
joined-add_to_first c (s ∷ t ∷ rest) = refl

joined-single : (s : Text) → joined (s ∷ []) ≡ s
unfolding joined
joined-single s = refl

joined-slash : (ss : List Text) → 0 < length ss → joined ([] ∷ ss) ≡ b'/' ∷ joined ss
unfolding joined
joined-slash [] h = ground (arith, h)
joined-slash (s ∷ ss) h = refl

length-segments : (cs : Text) → 0 < length (segments cs)
unfolding segments
length-segments [] = omega arith
length-segments (c ∷ cs) = ground (arith, length-segments cs)

-- A text is its segments, joined.
pub joined-segments : (cs : Text) → joined (segments cs) ≡ cs
unfolding segments
joined-segments [] = joined-single []
joined-segments (c ∷ cs) = ground (
  arith,
  joined-segments cs,
  joined-slash (segments cs) (length-segments cs),
  joined-add_to_first c (segments cs),
)

without_last-ends_with :
    (c : _) (cs : Text) → ends_with c cs ≡ true → without_last cs ++ c ∷ [] ≡ cs
unfolding without_last ends_with
without_last-ends_with c [] h = ground (arith, h)
without_last-ends_with c (d ∷ []) h = ground (arith, h)
without_last-ends_with c (d ∷ e ∷ rest) h = ap (λ z. d ∷ z) (without_last-ends_with c (e ∷ rest) h)

-- The path of a member as the archive spells it.
abbrev pub spelled : Text → Bool → Text
spelled path true = path ++ b'/' ∷ []
spelled path false = path

candidate-spelled :
    (raw_path : Text) (d : Bool) → Answers (λ p. spelled p d ≡ raw_path) (candidate raw_path d)
unfolding candidate
candidate-spelled raw_path true =
    Answers-require (λ p. spelled p true ≡ raw_path) (ends_with b'/' raw_path) unsafe_path
      (ok (without_last raw_path)) (λ h. without_last-ends_with b'/' raw_path h)
candidate-spelled raw_path false =
    Answers-require (λ p. spelled p false ≡ raw_path) (not (ends_with b'/' raw_path)) unsafe_path
      (ok raw_path) (λ _. refl)

-- A normalized path of a member.
pub record IsNormalized (raw_path : Text) (d : Bool) (path : Text) : Type 0 where
  pub same : spelled path d ≡ raw_path
  pub size : length path ≤ 512
  pub allowed : all is_allowed (segments path) ≡ true

pub normalize_bundle_path-IsNormalized :
    (raw_path : Text) (d : Bool)
    → Answers (IsNormalized raw_path d) (normalize_bundle_path raw_path d)
unfolding normalize_bundle_path
normalize_bundle_path-IsNormalized raw_path d =
    let P = IsNormalized raw_path d in
    Answers-require P (not (is_empty raw_path)) unsafe_path
      (require (not (contains raw_path 92)) unsafe_path >>= (λ _. candidate raw_path d >>= checked))
      (λ _.
        Answers-require P (not (contains raw_path 92)) unsafe_path
          (candidate raw_path d >>= checked)
          (λ _. after (candidate raw_path d) (candidate-spelled raw_path d)))
  where
    checked : Text → Result BundlePathError Text
    checked path = require (not (is_empty path || starts_with b'/' path)) unsafe_path >>= (λ _.
        require (leb (length path) 512) unsafe_path >>= (λ _.
          require (all is_allowed (segments path)) unsafe_path
          >>= (λ _. ok (joined (segments path)))))

    after :
        (r : Result BundlePathError Text)
        → Answers (λ p. spelled p d ≡ raw_path) r
        → Answers (IsNormalized raw_path d) (r >>= checked)
    after (err e) h = tt
    after (ok path) h =
        let P = IsNormalized raw_path d in
        Answers-require P (not (is_empty path || starts_with b'/' path)) unsafe_path
          (require (leb (length path) 512) unsafe_path >>= (λ _.
            require (all is_allowed (segments path)) unsafe_path
            >>= (λ _. ok (joined (segments path)))))
          (λ _.
            Answers-require P (leb (length path) 512) unsafe_path
              (require (all is_allowed (segments path)) unsafe_path
                >>= (λ _. ok (joined (segments path))))
              (λ small.
                Answers-require P (all is_allowed (segments path)) unsafe_path
                  (ok (joined (segments path)))
                  (λ allowed. subst⁻¹ P (joined-segments path) (record {
                    same = h;
                    size = leb→le (length path) 512 small;
                    allowed = allowed;
                  }))))
