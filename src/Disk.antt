-- ===== src/Disk.antt =====
-- The file system as the program's writers see it: entries by their paths, calls that the
-- operating system may fail at any time, and Go's way to test for an error after each call.
-- `Env` is the environment: which calls fail, which names `os.CreateTemp` draws, what
-- `os.ReadDir` lists. A failing call changes nothing, but a write may stop half-way.
pub mod Calls
pub mod Effects
pub mod Triples
pub mod Frames
use zoraxy_cert_warden.Base.{
  ℕ, zero, suc, Bool, true, false, Option, none, some, List, [], ◌∷◌, ◌++◌, Str, codes, ◌==◌,
  str_eq, if◌then◌else◌,
}
use zoraxy_cert_warden.Failure.{
  Errno, not_exist, exist, is_directory, not_directory, too_many_links, io, Error, is_not_exist,
  path_error, Result, ok, err,
}
use zoraxy_cert_warden.Host.{FileInfo, regular, directory, symlink, special}

-- What a path names. A directory says whether it is empty.
pub data Node : Type 0 where
  file : List ℕ → ℕ → Node
  directory_node : Bool → Node
  link_node : Str → Node
  special_node : Node

abbrev pub Disk : Type 0
Disk = Str → Option Node

pub record Env : Type 0 where
  -- The error of the call with this number, if it fails.
  pub fault : ℕ → Option Str
  -- The same for the calls that only look at an entry.
  pub lstat_fault : ℕ → Option Str
  -- How many bytes a failing write has written.
  pub written : ℕ → ℕ
  -- The random part of the name that `os.CreateTemp` draws.
  pub token : ℕ → Str
  -- The names that `os.ReadDir` lists.
  pub entries : ℕ → List Str

-- `seen` lists the states of the disk that a reader may meet, the last one first.
pub record World : Type 0 where
  pub disk : Disk
  pub clock : ℕ
  pub seen : List Disk

abbrev pub P : Type 0 → Type 0
P A = World → A × World

-- A call, with its error as a value.
abbrev pub M : Type 0 → Type 0
M A = P (Result A)

abbrev pub return : {A : Type 0} → A → P A
return a w = (a, w)

infixl 5 ◌>>=◌ ◌>>◌
unfoldable pub ◌>>=◌ : {A B : Type 0} → P A → (A → P B) → P B
◌>>=◌ m f w = let (a, w') = m w in f a w'

-- A call whose result is thrown away, `_ = call`.
unfoldable pub ◌>>◌ : {A B : Type 0} → P A → P B → P B
◌>>◌ m k w = let (a, w') = m w in k w'

-- `if err := call; err != nil { failed } else { done }`
unfoldable pub attempt : {A B : Type 0} → M A → (Error → P B) → (A → P B) → P B
attempt m failed done w = let (r, w') = m w in elim r [ err e ↦ failed e w' | ok a ↦ done a w' ]

-- `if err := call; err != nil && !errors.Is(err, fs.ErrNotExist) { failed }; done`
unfoldable pub tolerate : {B : Type 0} → M (Unit {0}) → (Error → P B) → P B → P B
unfolding attempt
tolerate m failed done = attempt m (λ e. if is_not_exist e then done else failed e) (λ _. done)

abbrev pub fail : {A : Type 0} → Error → M A
fail e = return (err e)

abbrev pub update : Disk → Str → Option Node → Disk
update d p n q = if q == p then n else d q

-- What a call does when the system does not fail it.
pub data Answer (A : Type 0) : Type 0 where
  refuses : Errno → Answer A
  gives : A → Answer A
  changes : A → Disk → Answer A

abbrev pub tick : World → World
tick w = record w { clock = suc w.clock }

abbrev pub show : World → Disk → World
show w d = record { disk = d; clock = suc w.clock; seen = d ∷ w.seen }

abbrev pub answer : {A : Type 0} → Str → Answer A → M A
answer op (refuses e) w = (err (path_error op e), tick w)
answer op (gives a) w = (ok a, tick w)
answer op (changes a d) w = (ok a, show w d)

abbrev pub call : {A : Type 0} → Option Str → Str → (Disk → Answer A) → M A
call none op f w = answer op (f w.disk) w
call (some e) op f w = (err (path_error op (io e)), tick w)
