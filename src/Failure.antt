-- ===== src/Failure.antt =====
-- Go's `error` values as the program builds them, and the results that carry them.
use zoraxy_cert_warden.Base.{◌≡◌, refl, Bool, true, false, ◌||◌, [], ◌++◌, String, Str, codes}

-- What the operating system answers when a call fails.
pub data Errno : Type 0 where
  not_exist exist is_directory not_directory too_many_links : Errno
  io : Str → Errno

errno_text : Errno → Str
errno_text not_exist = codes "no such file or directory"
errno_text exist = codes "file exists"
errno_text is_directory = codes "is a directory"
errno_text not_directory = codes "not a directory"
errno_text too_many_links = codes "too many levels of symbolic links"
errno_text (io s) = s

pub data Error : Type 0 where
  -- `errors.New(text)`, and `fmt.Errorf` with no `%w`.
  errorf : Str → Error
  -- `fmt.Errorf` with one `%w`: the text before the wrapped error, the error, and the text after.
  wrapf : Str → Error → Str → Error
  -- `*os.PathError`, or `*os.LinkError` for the operations rename and link: the operation with its
  -- path, and the cause.
  path_error : Str → Errno → Error
  -- `errors.Join` of two errors.
  joined : Error → Error → Error

-- `err.Error()`
unfoldable pub message : Error → Str
unfolding errno_text
message (errorf s) = s
message (wrapf before e after) = before ++ (message e ++ after)
message (path_error op e) = op ++ (codes ": " ++ errno_text e)
message (joined e f) = message e ++ (codes "\n" ++ message f)

-- `errors.Is(err, fs.ErrNotExist)`
unfoldable pub is_not_exist : Error → Bool
is_not_exist (errorf s) = false
is_not_exist (wrapf before e after) = is_not_exist e
is_not_exist (path_error op not_exist) = true
is_not_exist (path_error op _) = false
is_not_exist (joined e f) = is_not_exist e || is_not_exist f

-- `fmt.Errorf("text: %w", err)`
abbrev pub wrap : String → Error → Error
wrap s e = wrapf (codes s ++ codes ": ") e []

-- A constant error text.
abbrev pub new : String → Error
new s = errorf (codes s)

-- A function's value, or the error that it returns instead.
pub data Result {ℓ} (T : Type ℓ) : Type ℓ where
  err : Error → Result T
  ok : T → Result T

-- `value, err := call; if err != nil { return err }`, and what follows.
infixl 5 ◌>>=◌
abbrev pub ◌>>=◌ {ℓ κ} : {T : Type ℓ} {U : Type κ} → Result T → (T → Result U) → Result U
err failure >>= next = err failure
ok value >>= next = next value

-- The same where there is no value.
infixl 5 ◌>>◌
abbrev pub ◌>>◌ {ℓ} : {U : Type ℓ} → Result (Unit {0}) → Result U → Result U
err failure >> rest = err failure
ok value >> rest = rest

-- `if bad { return err }`
abbrev pub reject : Bool → Error → Result (Unit {0})
reject true e = err e
reject false e = ok tt

-- `if err != nil { return fmt.Errorf("text: %w", err) }`
abbrev pub within {ℓ} : {A : Type ℓ} → (Error → Error) → Result A → Result A
within f (ok a) = ok a
within f (err e) = err (f e)

-- What a success says of the calls before it.
pub >>-eq-ok {ℓ} :
    {U : Type ℓ} (check : Result (Unit {0})) (rest : Result U) {u : U}
    → (check >> rest) ≡ ok u
    → (check ≡ ok tt) × (rest ≡ ok u)
>>-eq-ok (err failure) rest e = cc
>>-eq-ok (ok value) rest e = (refl, e)

pub >>=-eq-ok {ℓ κ} :
    {T : Type ℓ} {U : Type κ} (call : Result T) (next : T → Result U) {u : U}
    → (call >>= next) ≡ ok u
    → (value : T) × (call ≡ ok value) × (next value ≡ ok u)
>>=-eq-ok (err failure) next e = cc
>>=-eq-ok (ok value) next e = (value, refl, e)

pub reject-eq-ok : (b : Bool) (e : Error) {u : Unit {0}} → reject b e ≡ ok u → b ≡ false
reject-eq-ok true e h = cc
reject-eq-ok false e h = refl

pub within-eq-ok {ℓ} :
    {A : Type ℓ} (f : Error → Error) (r : Result A) {a : A} → within f r ≡ ok a → r ≡ ok a
within-eq-ok f (ok a) h = h
within-eq-ok f (err e) h = cc

-- What holds of both cases of a result.
pub Result-holds {ℓ κ μ} :
    {A : Type ℓ} {B : Type κ} (P : B → Type μ) (r : Result A) {f : Error → B} {g : A → B}
    → ((e : Error) → P (f e))
    → ((a : A) → P (g a))
    → P (elim r [ err e ↦ f e | ok a ↦ g a ])
Result-holds P (err e) p q = p e
Result-holds P (ok a) p q = q a
