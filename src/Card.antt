-- ===== src/Card.antt =====
-- The card's files, by their paths, and main/core/firmware_upload/fw_upload_storage.c where it makes
-- the paths.
pub mod Laws
use miri_tool_v.Base.{
  ℕ, ◌+◌, Bool, true, false, Bytes, List, [], ◌∷◌, ◌++◌, Option, none, some, length, ltb,
  if◌then◌else◌,
}
use miri_tool_v.FwState.{text}
use miri_tool_v.FwTypes.{same_text}

abbrev pub Files : Type 0
Files = List (Bytes × Bytes)

-- The content of a file that is there.
unfoldable pub content_of : Bytes → Files → Option Bytes
content_of path [] = none
content_of path ((p, content) ∷ files) =
    let later = content_of path files in if same_text p path then some content else later

-- `remove`
unfoldable pub remove : Bytes → Files → Files
remove path [] = []
remove path ((p, content) ∷ files) =
    let rest = remove path files in if same_text p path then rest else (p, content) ∷ rest

-- A file that is opened with "wb", written and closed.
unfoldable pub store : Bytes → Bytes → Files → Files
unfolding remove
store path content files = (path, content) ∷ remove path files

-- BASE_FILESYSTEM_PATH_SDMMC
abbrev pub mount : Bytes
mount = text "/sdcard"

-- What `snprintf` into a buffer of 384 bytes leaves, if it all fits.
abbrev pub fitting : Bytes → Option Bytes
fitting path = if ltb (length path) 384 then some path else none

unfoldable pub build_path : Bytes → Bytes → Option Bytes
build_path name type = fitting (mount ++ (b'/' ∷ (name ++ (b'.' ∷ type))))

unfoldable pub build_meta_path : Bytes → Bytes → Option Bytes
build_meta_path name type = fitting (mount ++ (b'/' ∷ (name ++ (b'.' ∷ (type ++ text ".meta")))))
