-- ===== src/Transfer/Download.antt =====
-- DownloadFileRelay and applyRelayPermissions (internal/client/transfers.go), and validateDestinationBase
-- (internal/actions/transfer/transfer.go). The file system takes every write, and its root separates
-- folders by a slash; whether a mode can be set is a parameter. The server changes between two
-- requests: a round sees the server of its number. Paths have the letters of ASCII.
pub mod Rounds
pub mod Received
use nitejaguar.Base.{
  ℕ, zero, suc, ◌+◌, ◌*◌, ◌-◌, pos, Bool, true, false, not, ◌||◌, ◌&&◌, Option, none, some, List,
  [], ◌∷◌, ◌++◌, String, Text, codes, text_eq, has_prefix, trim_space, to_lower, equal_fold,
  base_name, holds_code, length, drop, ltb, leb, ◌==◌, if◌then◌else◌,
}
use nitejaguar.Relay.{Bytes, Session, Chunk, max_transfer_chunks}
use nitejaguar.Result.{Result, ok, err}
use nitejaguar.Server.{Server, HttpError, fetch_chunks}
use nitejaguar.Transfer.{
  TransferError, out_of_rounds, sha_differs, interrupted, bad_destination, destination_exists,
  bad_permissions, fetch_failed, gap_at, invalid_chunk,
}

-- strings.ContainsAny
contains_any : Text → Text → Bool
unfolding holds_code
contains_any [] cutset = false
contains_any (c ∷ cs) cutset = holds_code c cutset || contains_any cs cutset

-- stem[:i] at the first dot
before_dot : Text → Text
before_dot [] = []
before_dot (c ∷ cs) = if c == b'.' then [] else c ∷ before_dot cs

-- com1 to com9, lpt1 to lpt9
is_port : Text → Bool
is_port (a ∷ b ∷ c ∷ d ∷ []) =
    let name = a ∷ b ∷ c ∷ [] in
    (text_eq name (codes "com") || text_eq name (codes "lpt")) && leb b'1' d && leb d b'9'
is_port _ = false

-- windowsReserved
windows_reserved : Text → Bool
unfolding is_port
windows_reserved s =
    text_eq s (codes "con")
    || text_eq s (codes "prn")
    || text_eq s (codes "aux")
    || text_eq s (codes "nul")
    || is_port s

-- func validateDestinationBase: whether it gives no error
unfoldable pub valid_destination_base : Text → Bool
unfolding base_name contains_any before_dot windows_reserved to_lower
valid_destination_base dst =
    let base = base_name dst in
    if text_eq base [] || text_eq base (codes ".") || text_eq base (codes "/")
    then false
    else if contains_any base (codes "<>:\"|?*")
    then false
    else not (windows_reserved (to_lower (before_dot base)))

-- the digits of strconv.ParseUint in base 8; a number beyond 32 bits is beyond 0o777 too
octal_digits : ℕ → Text → Option ℕ
octal_digits n [] = some n
octal_digits n (c ∷ cs) =
    let rest = octal_digits (n * 8 + (c - 48)) cs in if leb 48 c && leb c 55 then rest else none

pub parse_octal : Text → Option ℕ
unfolding octal_digits
parse_octal [] = none
parse_octal (c ∷ cs) = octal_digits 0 (c ∷ cs)

pub without_prefix : Text → Text → Text
without_prefix p s = if has_prefix s p then drop (length p) s else s

unfoldable pub set_mode : (ℕ → Bool) → Bool → Option ℕ → Result TransferError Unit
set_mode chmod windows none = err bad_permissions
set_mode chmod windows (some v) =
    if ltb 511 v
    then err bad_permissions
    else if not (chmod v) && not windows
    then err bad_permissions
    else ok tt

-- func applyRelayPermissions, with whether os.Chmod sets the mode, and whether this is Windows
unfoldable pub apply_relay_permissions : (ℕ → Bool) → Bool → Text → Result TransferError Unit
unfolding set_mode parse_octal without_prefix
apply_relay_permissions chmod windows requested =
    let cleaned = trim_space requested in
    if text_eq cleaned []
    then ok tt
    else set_mode chmod windows
        (parse_octal (without_prefix (codes "0O") (without_prefix (codes "0o") cleaned)))

-- what is returned, and the file at the destination behind it
abbrev pub Receiving : Type 0
Receiving = Result TransferError Text × Option Bytes

-- if total >= sess.Size && sess.Size > 0
abbrev pub has_all : ℕ → Bytes → Bool
has_all size got = leb size (length got) && ltb 0 size

module _ (hash_token : String → String) (digest : Bytes → Text) (encode : Bytes → Text)
    (decode : Text → Option Bytes) where
  -- the loop over the chunks of one answer: the next number, and the bytes written
  unfoldable pub write_chunks : ℕ → Bytes → List Chunk → Result TransferError (ℕ × Bytes)
  write_chunks seq got [] = ok (seq, got)
  write_chunks seq got (c ∷ cs) =
      if not (c.seq == seq) then err (gap_at seq) else elim (decode (encode c.bytes)) [
        | none ↦ err (invalid_chunk seq)
        | some raw ↦ write_chunks (seq + 1) (got ++ raw) cs
      ]

  module _ (token id : String) (size : ℕ) (world : ℕ → Server) (cancelled : ℕ → Bool) where
    -- the loop over the requests, on fuel: the bytes of the file
    unfoldable pub download_rounds : ℕ → ℕ → ℕ → Bytes → Result TransferError Bytes
    download_rounds zero round seq got = err out_of_rounds
    download_rounds (suc fuel) round seq got =
        if cancelled round
        then err interrupted
        else elim (fetch_chunks hash_token digest decode token id (pos seq) (world round)) [
          | err e ↦ err (fetch_failed e)
          | ok [] ↦ ok got
          | ok (c ∷ cs) ↦ elim (write_chunks seq got (c ∷ cs)) [
            | err e ↦ err e
            | ok (next, more) ↦ elim (has_all size more) [
              | true ↦ ok more
              | false ↦ download_rounds fuel (round + 1) next more
            ]
          ]
        ]

  module _ (chmod : ℕ → Bool) (windows : Bool) where
    -- behind the loop: the digest and the permissions, or the file is removed
    unfoldable pub keep_file : Session → Bytes → Receiving
    keep_file row got =
        if not (equal_fold (digest got) row.sha256)
        then (err sha_differs, none)
        else elim (apply_relay_permissions chmod windows row.permissions) [
          | err e ↦ (err e, none)
          | ok _ ↦ (ok (digest got), some got)
        ]

    unfoldable pub finish_file : Session → Result TransferError Bytes → Receiving
    finish_file row (err e) = (err e, none)
    finish_file row (ok got) = keep_file row got

    -- func DownloadFileRelay; a session holds no more than 512 chunks
    unfoldable pub download_file_relay :
        String → Session → Text → (ℕ → Server) → (ℕ → Bool) → Option Bytes → Receiving
    download_file_relay token row dst world cancelled disk =
        if not (valid_destination_base dst) then (err bad_destination, disk) else elim disk [
          | some b ↦ (err destination_exists, some b)
          | none ↦ finish_file row (
              download_rounds token row.id row.size world cancelled (max_transfer_chunks + 1) 0 0
                [])
        ]
