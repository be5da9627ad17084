-- ===== src/Texts.antt =====
-- The texts of entries, headers, responses and status errors: the `String` methods of entry.go,
-- denylist.go and status.go, and `Error` of status.go. `error_text` is the method `Error` of the
-- other errors. A nil interface whose method is called is a panic.
use nopfs.Prelude.{
  Bool, true, false, [], ◌++◌, Option, none, some, Bytes, codes, bytes_eqb, if◌then◌else◌, Error,
}
use nopfs.Text.Decimal.{decimal}
use nopfs.Libs.{Libs, Cid, IpfsPath}
use nopfs.Entry.{Entry}
use nopfs.Status.{StatusResponse, StatusError, status_string}
use nopfs.Denylist.{DenylistHeader}

-- What a method that prints comes to.
pub data Shown : Type 0 where
  shown : Bytes → Shown
  nil_dereference : Shown

abbrev pub bool_string : Bool → Bytes
bool_string true = codes "true"
bool_string false = codes "false"

-- `Entry.String`.
unfoldable pub entry_string : Entry → Bytes
entry_string e =
    let path = if bytes_eqb e.path.path [] then codes "(empty)" else e.path.path in
    codes "Path: "
    ++ (path
        ++ (codes ". Prefix: "
            ++ (bool_string e.path.prefix
                ++ (codes ". AllowRule: " ++ (bool_string e.allow_rule ++ codes ".")))))

-- `DenylistHeader.String`.
unfoldable pub header_string : DenylistHeader → Bytes
header_string h = h.name ++ (codes " (" ++ (h.description ++ (codes ") by " ++ h.author)))

-- What follows the name of a response, in `StatusResponse.String`.
abbrev pub details : StatusResponse → Bytes
details r =
    codes ": "
    ++ (status_string r.status
        ++ (codes " (" ++ (r.filename ++ (codes ":" ++ (decimal r.entry.line ++ codes ")")))))

abbrev pub before : Shown → Bytes → Shown
before (shown text) after = shown (text ++ after)
before nil_dereference after = nil_dereference

module _ (L : Libs) (error_text : Error → Bytes) where
  -- The CID if it is defined, or else the path.
  abbrev pub name_string : Option Cid → Option IpfsPath → Shown
  name_string (some c) p = shown (L.cid_string c)
  name_string none (some p) = shown p.text
  name_string none none = nil_dereference

  abbrev pub unless_error : Option Error → Shown → Shown
  unless_error (some error) text = shown (error_text error)
  unless_error none text = text

  -- `StatusResponse.String`.
  unfoldable pub response_string : StatusResponse → Shown
  response_string r = unless_error r.error (before (name_string r.cid r.path) (details r))

  -- `StatusError.Error`.
  unfoldable pub status_error_string : StatusError → Shown
  status_error_string e = unless_error e.response.error (
      before (name_string e.response.cid e.response.path)
        (codes " is blocked and cannot be provided"))
