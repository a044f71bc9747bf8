-- ===== src/Admin/Params.antt =====
-- What a request carries and what its handlers require of it: the helpers of internal/admin/admin.go.
use fix_session_lab.Base.{List, [], ◌∷◌, ite}
use fix_session_lab.Base.Atoi.{Parsed, number, bad_syntax, out_of_range, atoi}
use fix_session_lab.Base.Int.{ℤ}
use fix_session_lab.Base.Text.{Text, text_dec}
use fix_session_lab.Deps.{Deps, Result, ok, err, ◌>>=◌}

-- The query holds the parameters in the order of the URL.
pub record Request : Type 0 where
  pub method : Text
  pub path : Text
  pub query : List (Text × Text)

-- url.Values.Get: the first value, or the empty text.
unfoldable pub query_get : List (Text × Text) → Text → Text
query_get [] key = []
query_get ((k, v) ∷ q) key = ite (text_dec k key) v (query_get q key)

-- `if v == "" { v = d }`.
unfoldable pub or_default : Text → Text → Text
or_default v d = ite (text_dec v []) d v

-- What requireStr, requireInt and requireDec refuse.
pub data ParamError : Type 0 where
  required : Text → ParamError
  not_an_integer : Text → Parsed ℤ → ParamError
  not_a_number : Text → Text → ParamError

unfoldable pub require_str : Request → Text → Result ParamError Text
unfolding query_get
require_str r key = let v = query_get r.query key in ite (text_dec v []) (err (required key)) (ok v)

unfoldable pub int_of_parsed : Text → Parsed ℤ → Result ParamError ℤ
int_of_parsed key (number n) = ok n
int_of_parsed key bad_syntax = err (not_an_integer key bad_syntax)
int_of_parsed key out_of_range = err (not_an_integer key out_of_range)

unfoldable pub require_int : Request → Text → Result ParamError ℤ
unfolding require_str int_of_parsed
require_int r key = do raw ← require_str r key; int_of_parsed key (atoi raw)

module _ ⦃L : Deps⦄ where
  unfoldable pub require_dec : Request → Text → Result ParamError L.Decimal
  unfolding require_str
  require_dec r key = do
    raw ← require_str r key
    elim (L.decimal_of_text raw) [ ok d ↦ ok d | err e ↦ err (not_a_number key e) ]
