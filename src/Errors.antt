-- ===== src/Errors.antt =====
-- Go's `error` values as this program builds them: `errors.New`, `fmt.Errorf` with one `%w`,
-- `errors.Join`, and the `*Error` of pkg/apperror/error.go; with `errors.Is` and `errors.As`.
use Prim.Native.String.{◌++◌}
use text.Mathlib.Text.{◌==◌ as str_eq}
use thiam_api.Base.{
  ℕ, Bool, true, false, ◌||◌, Option, none, some, List, String, ◌==◌, if◌then◌else◌,
}

-- `Kind`, in the order of the source's `iota`.
pub data Kind : Type 0 where
  unknown validation not_found conflict unauthorized forbidden internal external timeout : Kind

-- The fields of `apperror.Error` but the cause. A nil map is `none`.
pub record Head : Type 0 where
  pub kind : Kind
  pub code : String
  pub message : String
  pub op : String
  pub fields : Option (List (String × String))

-- `leaf` carries the address of the value, by which `errors.Is` compares. `wrap` has the texts
-- before and after `%w`. `join` lists its errors one by one and ends in `nil`.
pub data Error : Type 0 where
  nil : Error
  leaf : ℕ → String → Error
  wrap : String → String → Error → Error
  join : Error → Error → Error
  app : Head → Error → Error

abbrev pub is_nil : Error → Bool
is_nil nil = true
is_nil _ = false

-- `(*Error).Error` on the head.
unfoldable pub head_text : Head → String
head_text h = if str_eq h.op "" then h.message else h.op ++ (": " ++ h.message)

join_text : String → String → Error → String
join_text s t nil = s
join_text s t _ = s ++ ("\n" ++ t)

-- `err.Error()`.
unfoldable pub error_text : Error → String
unfolding head_text join_text
error_text nil = ""
error_text (leaf a s) = s
error_text (wrap before after e) = before ++ (error_text e ++ after)
error_text (join e es) = join_text (error_text e) (error_text es) es
error_text (app h e) = head_text h

-- `errors.Is(err, target)` for a target made by `errors.New`.
unfoldable pub errors_is : Error → ℕ → Bool
errors_is nil a = false
errors_is (leaf b s) a = b == a
errors_is (wrap before after e) a = errors_is e a
errors_is (join e es) a = errors_is e a || errors_is es a
errors_is (app h e) a = errors_is e a

-- `or_else` on options, the order in which `errors.As` visits a joined error.
abbrev pub or_else {ℓ} : {A : Type ℓ} → Option A → Option A → Option A
or_else none b = b
or_else (some a) b = some a

-- `errors.As(err, &appErr)`: the first `*Error` of the tree, with its cause.
unfoldable pub errors_as : Error → Option (Head × Error)
errors_as nil = none
errors_as (leaf b s) = none
errors_as (wrap before after e) = errors_as e
errors_as (join e es) = or_else (errors_as e) (errors_as es)
errors_as (app h e) = some (h, e)
