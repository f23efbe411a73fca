-- ===== src/Hashing.antt =====
-- backend/app/services/hashing.py: the digest of a text in canonical form.
use resume_helper.Base.{
  ◌≡◌, Bool, false, [], ◌∷◌, ◌++◌, Text, length, is_space, strip, if◌then◌else◌,
}

-- `unicodedata.normalize("NFC", text)` and `hashlib.sha256(value.encode()).hexdigest()`. A hex digest
-- has 64 characters.
pub record Digest : Type 0 where
  pub normalize : Text → Text
  pub hexdigest : Text → Text
  pub length-hexdigest : (value : Text) → length (hexdigest value) ≡ 64

-- `re.sub(r"\s+", " ", text)`; the flag says that the character before was white space.
collapse : Bool → Text → Text
collapse spaced [] = []
collapse spaced (c ∷ s) =
    let rest = collapse (is_space c) s in
    if is_space c then (if spaced then rest else 32 ∷ rest) else c ∷ rest

module _ (d : Digest) where
  unfoldable pub canonicalize : Text → Text
  unfolding collapse
  canonicalize text = strip (collapse false (d.normalize text))

  unfoldable pub sha256 : Text → Text
  sha256 value = d.hexdigest value

  unfoldable pub content_hash : Text → Text
  unfolding sha256 canonicalize
  content_hash parsed_text = sha256 (canonicalize parsed_text)

  unfoldable pub jd_hash : Text → Text
  unfolding sha256 canonicalize
  jd_hash job_description = sha256 (canonicalize job_description)

  unfoldable pub cache_key : Text → Text → Text → Text
  unfolding sha256 jd_hash
  cache_key cv_hash jd prompt_version =
      sha256 (cv_hash ++ 124 ∷ (jd_hash jd ++ 124 ∷ prompt_version))

  pub length-jd_hash : (jd : Text) → length (jd_hash jd) ≡ 64
  unfolding jd_hash
  length-jd_hash jd = d.length-hexdigest (canonicalize jd)
