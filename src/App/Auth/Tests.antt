-- ===== src/App/Auth/Tests.antt =====
-- Authentication, session ids and images at concrete requests.
use llm_sandbox.Prelude.{
  ◌≡◌, ◌≢◌, ◌↔◌, ◌⊎◌, refl, arith, List, [], ◌∷◌, ◌++◌, codes, true, false, Text, all, length, some,
  elem,
}
use llm_sandbox.Python.Utf8.{encode}
use llm_sandbox.Python.Shlex.{is_safe}
use llm_sandbox.Base.Errors.{ok, raised, http}
use llm_sandbox.App.Auth.{
  none, auth, auth_iff, is_session_id, is_session_id-is_safe, resolve_image, resolve_image-outcome,
  image_detail,
}

auth_iff_example :
    ((auth (codes "key") (encode (codes "Bearer " ++ codes "kez")) ≡ ok tt)
      ↔ (codes "kez" ≡ codes "key"))
    × ((codes "kez" ≡ codes "key")
        ⊎ ((codes "kez" ≢ codes "key")
            × (auth (codes "key") (encode (codes "Bearer " ++ codes "kez"))
                ≡ raised (http 401 (codes "missing or invalid bearer token")))))
auth_iff_example = auth_iff (codes "key") (codes "kez") (cc) (omega arith) (omega arith)

abbrev sid : Text
sid = codes "0123456789abcdef"

safe_id_test : (length sid ≡ 16) × (all is_safe sid ≡ true)
unfolding is_session_id
safe_id_test = is_session_id-is_safe sid refl

abbrev images : List Text
images = codes "img:2" ∷ []

resolve_image-outcome_example :
    ((image : Text) × (resolve_image (λ s. s) (codes "img:1") images (some (codes "img:2"))
        ≡ ok image)
      × ((image ≡ codes "img:1") ⊎ (elem image images ≡ true))
      × ((some (codes "img:2") ≡ none) ⊎ (some (codes "img:2") ≡ some image)))
    ⊎ ((image : Text) × (some (codes "img:2") ≡ some image)
        × (image ≢ codes "img:1")
        × (elem image images ≡ false)
        × (resolve_image (λ s. s) (codes "img:1") images (some (codes "img:2"))
            ≡ raised (http 400 (image_detail (λ s. s) (codes "img:1") images image))))
resolve_image-outcome_example =
    resolve_image-outcome (λ s. s) (codes "img:1") images (some (codes "img:2"))
