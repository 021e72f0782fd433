-- ===== src/Security/Tests.antt =====
-- The theorems on the CORS handler at a list of one origin.
use gateway_a.Prelude.{Text, text_eq, codes, true, [], ◌∷◌, refl}
use gateway_a.Security.{CorsOptions, default_cors_options, cors}
use gateway_a.Http.Actions.{header_of}
use gateway_a.Security.Cors.{Grants, cors-Grants}

abbrev origin : Text
origin = codes "https://app.example"

abbrev options : CorsOptions
options = record default_cors_options { allowed_origins = origin ∷ []; allow_credentials = true }

cors-Grants_example : Grants origin (origin ∷ []) origin
unfolding cors header_of
cors-Grants_example = cors-Grants options origin (codes "GET") origin refl
