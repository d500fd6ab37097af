-- ===== src/Http/Tests.antt =====
-- Concrete errors, with their kinds and answers.
use thiam_api.Base.{true, false, ◌≡◌, refl, List, [], ◌∷◌}
use thiam_api.Errors.{not_found, Error, nil, leaf, wrap, join}
use thiam_api.AppError.{Setting, with_op, with_cause, with_field, new_error, to_error, get_kind}
use thiam_api.AppError.Chain.{predicates-new_error, wraps, verdicts}
use thiam_api.Http.{error_response}
use thiam_api.Http.Responses.{error_response_hides}

abbrev cause : Error
cause = leaf 7 "pq: password of admin is wrong"

abbrev settings : List Setting
settings = with_op "Users.Get" ∷ with_field "id" "7" ∷ with_cause cause ∷ with_field "id" "8" ∷ []

-- A missing user, found behind a wrap, in a join.
abbrev missing : Error
missing =
    join (wrap "load: " "" (to_error (new_error not_found "no such user" settings)))
      (join cause nil)

error_response_hides_example :
    error_response (wrap "query: " "" cause) ≡ error_response (leaf 8 "disk full")
error_response_hides_example =
    error_response_hides (wrap "query: " "" cause) (leaf 8 "disk full") refl

predicates-new_error_example :
    (get_kind (wraps ("a: " ∷ "b: " ∷ []) (to_error (new_error not_found "no such user" settings)))
      ≡ not_found)
    × (verdicts
          (wraps ("a: " ∷ "b: " ∷ []) (to_error (new_error not_found "no such user" settings)))
        ≡ false ∷ true ∷ false ∷ false ∷ false ∷ false ∷ false ∷ false ∷ [])
predicates-new_error_example =
    predicates-new_error not_found "no such user" settings ("a: " ∷ "b: " ∷ [])
