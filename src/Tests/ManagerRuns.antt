-- ===== src/Tests/ManagerRuns.antt =====
-- The names in a directory on concrete data.
use miri_tool_v.Base.{◌≡◌, refl, Bytes, List, [], ◌∷◌, some}
use miri_tool_v.FwState.{text}
use miri_tool_v.Manager.{
  find_sdmmc_file, find_in, last_dot, filename_without_extension, filename_ext,
}

abbrev directory : List Bytes
directory = text "README" ∷ text "APP.BIN" ∷ text "App.Hex" ∷ []

find_sdmmc_file-directory :
    find_sdmmc_file directory (text "app") (text "hex")
    ≡ some (record { name = text "App"; type = text "Hex" })
unfolding find_sdmmc_file find_in filename_ext last_dot filename_without_extension
find_sdmmc_file-directory = refl
