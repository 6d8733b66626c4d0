-- ===== src/Api/System.antt =====
-- internal/api/system_handler.go: the versions and the space on the disk, in 64-bit arithmetic.
use ad_pki_ca.Base.{ℕ, Option, none, some, List, [], ◌∷◌, String, ◌<>◌, ◌*◌, ◌%◌}
use ad_pki_ca.Json.{Json, obj, str, arr, field, end, omit_str, encode_items}
use ad_pki_ca.Config.{base_dir}
use ad_pki_ca.Env.{Env, DiskStat}
use ad_pki_ca.World.{World}
use ad_pki_ca.Api.Http.{Request, Response, json_response}

-- 2 ^ 64
abbrev two_64 : ℕ
two_64 = 18446744073709551616

pub record SystemInfo : Type 0 where
  pub component : String
  pub version : String
  pub detail : String

unfoldable pub encode_system_info : SystemInfo → Json
encode_system_info i = obj (
    field "component" (str i.component)
      (field "version" (str i.version) (omit_str "detail" i.detail end)))

module _ (env : Env) where
  -- `n * uint64(stat.Bsize)`
  unfoldable pub byte_count : ℕ → DiskStat → ℕ
  byte_count n stat = (n * stat.bsize) % two_64

  unfoldable pub storage_info : Option DiskStat → SystemInfo
  unfolding byte_count
  storage_info (some stat) = record {
    component = "Storage";
    version = "OK";
    detail =
        env.gb_text (byte_count stat.bavail stat)
        <> " GB frei / "
        <> env.gb_text (byte_count stat.blocks stat)
        <> " GB gesamt";
  }
  storage_info none = record {
    component = "Storage";
    version = "ERROR";
    detail = "Pfad nicht lesbar: " <> base_dir env;
  }

  abbrev go_info : SystemInfo
  go_info = record { component = "Go"; version = env.runtime_version; detail = "" }

  -- SystemInfoHandler
  unfoldable pub system_info_handler : Request → World → Response × World
  unfolding storage_info encode_system_info
  system_info_handler r w =
      let infos : List SystemInfo = go_info ∷ storage_info (env.statfs w.now (base_dir env)) ∷ [] in
      (json_response 200 (arr (encode_items encode_system_info infos)), w)
