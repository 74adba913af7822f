-- ===== src/Status.antt =====
-- status.go, and the Go errors that the program passes about. `io.EOF` is `eof`; an error of
-- grpc's status package is `status`; the error of an ended context is `ended`; `fmt.Errorf` with
-- `%w` is `wrapped`; any other error is `plain`. What grpc's status package makes of an error is
-- its own affair: the record `StatusApi` has its functions and what its documentation says of them.
use totem.Base.{ℕ, Bool, true, false, Option, none, some, ◌≡◌, ◌≢◌, Text, codes}
use totem.Wire.{Status, Response}

pub data Err : Type 0 where
  eof : Err
  status : Status → Err
  ended : Text → Err
  wrapped : Text → Err → Err
  plain : Text → Err

-- errors.Is(err, io.EOF)
abbrev pub is_eof : Err → Bool
is_eof eof = true
is_eof (wrapped _ e) = is_eof e
is_eof _ = false

pub data Result {ℓ} (A : Type ℓ) : Type ℓ where
  ok : A → Result A
  err : Err → Result A

-- the codes of google.golang.org/grpc/codes that the program names
abbrev pub code_ok : ℕ
code_ok = 0

abbrev pub code_canceled : ℕ
code_canceled = 1

abbrev pub code_unknown : ℕ
code_unknown = 2

abbrev pub code_not_found : ℕ
code_not_found = 5

abbrev pub code_unimplemented : ℕ
code_unimplemented = 12

abbrev pub code_internal : ℕ
code_internal = 13

abbrev pub code_unavailable : ℕ
code_unavailable = 14

-- status.New(codes.OK, codes.OK.String())
abbrev pub ok_status : Status
ok_status = record { code = code_ok; message = codes "OK" }

-- A response with no status counts as a failure of unknown kind.
unfoldable pub get_status : Option Response → Status
get_status none = record { code = code_unknown; message = codes "Unknown" }
get_status (some r) = elim r.status_proto [
  | none ↦ record { code = code_unknown; message = codes "Unknown" }
  | some s ↦ s
]

pub record StatusApi : Type 0 where
  -- status.Convert(err).Proto(), which is nil for a nil error
  pub convert : Option Err → Option Status
  -- status.FromProto(p).Err(), which is nil exactly for the code OK
  pub err_of : Status → Option Err
  -- status.Code(err)
  pub code_of : Err → ℕ
  -- strconv.Quote, by which `%q` prints
  pub quote : Text → Text
  pub convert_nil : convert none ≡ none
  pub convert_status : (s : Status) → convert (some (status s)) ≡ some s
  pub err_of_ok : (s : Status) → s.code ≡ 0 → err_of s ≡ none
  pub err_of_ne : (s : Status) → s.code ≢ 0 → err_of s ≡ some (status s)
