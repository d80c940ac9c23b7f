-- ===== src/Disk/Calls.antt =====
-- The calls of Go's `os` package that the program makes, each on one entry of the disk.
use zoraxy_cert_warden.Base.{
  ℕ, zero, suc, true, false, Option, none, some, List, [], ◌∷◌, ◌++◌, Str, codes, str_eq,
}
use zoraxy_cert_warden.Failure.{
  Errno, not_exist, exist, is_directory, not_directory, too_many_links, io, path_error, err,
}
use zoraxy_cert_warden.Host.{FileInfo, regular, directory, symlink, special}
use zoraxy_cert_warden.Disk.{
  Node, file, directory_node, link_node, special_node, Disk, Env, M, Answer, refuses, gives,
  changes, answer, call, update,
}

abbrev pub info_of : Node → FileInfo
info_of (file bytes mode) = record { kind = regular; perm = mode }
info_of (directory_node empty) = record { kind = directory; perm = 493 }
info_of (link_node target) = record { kind = symlink; perm = 511 }
info_of special_node = record { kind = special; perm = 438 }

abbrev pub look : Option Node → Answer FileInfo
look none = refuses not_exist
look (some n) = gives (info_of n)

-- The entry behind a path, links followed. Linux gives up after forty.
abbrev follow : ℕ → Disk → Str → Option Node → Answer Node
follow fuel d p none = refuses not_exist
follow fuel d p (some (file bytes mode)) = gives (file bytes mode)
follow fuel d p (some (directory_node empty)) = gives (directory_node empty)
follow fuel d p (some special_node) = gives special_node
follow zero d p (some (link_node t)) = refuses too_many_links
follow (suc fuel) d p (some (link_node t)) = follow fuel d t (d t)

unfoldable pub info_behind : Answer Node → Answer FileInfo
info_behind (refuses e) = refuses e
info_behind (gives n) = gives (info_of n)
info_behind (changes n d) = gives (info_of n)

abbrev contents_of : Node → Answer (List ℕ)
contents_of (file bytes mode) = gives bytes
contents_of (directory_node empty) = refuses is_directory
contents_of (link_node t) = refuses too_many_links
contents_of special_node = refuses (io (codes "not a regular file"))

unfoldable pub contents_behind : Answer Node → Answer (List ℕ)
contents_behind (refuses e) = refuses e
contents_behind (gives n) = contents_of n
contents_behind (changes n d) = contents_of n

unfoldable pub behind : Disk → Str → Answer Node
behind d p = follow 40 d p (d p)

abbrev pub erase : Disk → Str → Option Node → Answer (Unit {0})
erase d p none = refuses not_exist
erase d p (some (directory_node false)) = refuses (io (codes "directory not empty"))
erase d p (some n) = changes tt (update d p none)

-- Why an entry cannot take the place of another, if it cannot.
abbrev pub obstacle : Node → Option Node → Option Errno
obstacle n none = none
obstacle (directory_node e) (some (directory_node true)) = none
obstacle (directory_node e) (some (directory_node false)) = some (io (codes "directory not empty"))
obstacle (directory_node e) (some n) = some not_directory
obstacle n (some (directory_node e)) = some exist
obstacle n (some m) = none

abbrev pub move : Disk → Str → Str → Option Node → Answer (Unit {0})
move d p q none = refuses not_exist
move d p q (some n) = elim (obstacle n (d q)) [
  | some e ↦ refuses e
  | none ↦ changes tt (update (update d p none) q (some n))
]

-- A new, empty file that only its owner can read, if the name is free.
abbrev pub create : Disk → Str → Option Node → Answer Str
create d p (some n) = refuses exist
create d p none = changes p (update d p (some (file [] 384)))

abbrev pub extend_file : Disk → Str → List ℕ → Option Node → Answer (Unit {0})
extend_file d p bytes (some (file old mode)) =
    changes tt (update d p (some (file (old ++ bytes) mode)))
extend_file d p bytes _ = refuses not_exist

abbrev pub change_mode : Disk → Str → ℕ → Option Node → Answer (Unit {0})
change_mode d p mode (some (file old m)) = changes tt (update d p (some (file old mode)))
change_mode d p mode _ = refuses not_exist

abbrev pub make_directory : Disk → Str → Option Node → Answer (Unit {0})
make_directory d p none = changes tt (update d p (some (directory_node true)))
make_directory d p (some (directory_node e)) = gives tt
make_directory d p (some n) = refuses not_directory

-- A second name for an entry; links themselves are not followed.
abbrev pub second_name : Disk → Str → Option Node → Option Node → Answer (Unit {0})
second_name d q none m = refuses not_exist
second_name d q (some n) (some m) = refuses exist
second_name d q (some n) none = changes tt (update d q (some n))

abbrev pub take : ℕ → List ℕ → List ℕ
take zero bytes = []
take (suc n) [] = []
take (suc n) (b ∷ bytes) = b ∷ take n bytes

module _ (o : Env) where
  -- `os.Lstat`
  unfoldable pub lstat : Str → M FileInfo
  lstat p w = call (o.lstat_fault w.clock) (codes "lstat " ++ p) (λ d. look (d p)) w

  -- `os.Stat`
  unfoldable pub stat : Str → M FileInfo
  stat p w = call (o.fault w.clock) (codes "stat " ++ p) (λ d. info_behind (behind d p)) w

  -- `os.ReadFile`
  unfoldable pub read_file : Str → M (List ℕ)
  read_file p w = call (o.fault w.clock) (codes "open " ++ p) (λ d. contents_behind (behind d p)) w

  -- `os.MkdirAll`, for the directory itself.
  unfoldable pub mkdir_all : Str → M (Unit {0})
  mkdir_all p w = call (o.fault w.clock) (codes "mkdir " ++ p) (λ d. make_directory d p (d p)) w

  -- `os.CreateTemp(dir, prefix + "*" + suffix)`, with the name of the file for the file.
  unfoldable pub create_temp : Str → Str → Str → M Str
  create_temp dir prefix suffix w =
      let p = dir ++ (codes "/" ++ (prefix ++ (o.token w.clock ++ suffix))) in
      call (o.fault w.clock) (codes "open " ++ p) (λ d. create d p (d p)) w

  -- `(*os.File).Write`; a write that fails may have written a part.
  unfoldable pub write : Str → List ℕ → M (Unit {0})
  write p bytes w = elim (o.fault w.clock) [
    | none ↦ answer (codes "write " ++ p) (extend_file w.disk p bytes (w.disk p)) w
    | some e ↦
        let (r, w') =
          answer (codes "write " ++ p)
            (extend_file w.disk p (take (o.written w.clock) bytes) (w.disk p)) w in
        (err (path_error (codes "write " ++ p) (io e)), w')
  ]

  -- `(*os.File).Chmod`
  unfoldable pub chmod : Str → ℕ → M (Unit {0})
  chmod p mode w = call (o.fault w.clock) (codes "chmod " ++ p) (λ d. change_mode d p mode (d p)) w

  -- `(*os.File).Sync`, of a file or of a directory.
  unfoldable pub sync : Str → M (Unit {0})
  sync p w = call (o.fault w.clock) (codes "sync " ++ p) (λ d. gives tt) w

  -- `(*os.File).Close`
  unfoldable pub close : Str → M (Unit {0})
  close p w = call (o.fault w.clock) (codes "close " ++ p) (λ d. gives tt) w

  -- `os.Open` of a directory, to flush it.
  unfoldable pub open_directory : Str → M (Unit {0})
  open_directory p w =
      call (o.fault w.clock) (codes "open " ++ p)
        (λ d. elim (d p) [ none ↦ refuses not_exist | some n ↦ gives tt ]) w

  -- `os.Remove`
  unfoldable pub remove : Str → M (Unit {0})
  remove p w = call (o.fault w.clock) (codes "remove " ++ p) (λ d. erase d p (d p)) w

  -- `os.Rename`
  unfoldable pub rename : Str → Str → M (Unit {0})
  rename p q w = call (o.fault w.clock) (codes "rename " ++ p) (λ d. move d p q (d p)) w

  -- `os.Link`
  unfoldable pub link : Str → Str → M (Unit {0})
  link p q w = call (o.fault w.clock) (codes "link " ++ p) (λ d. second_name d q (d p) (d q)) w

  -- `os.ReadDir`, by the names of the entries.
  unfoldable pub read_dir : Str → M (List Str)
  read_dir p w = call (o.fault w.clock) (codes "open " ++ p) (λ d. gives (o.entries w.clock)) w
