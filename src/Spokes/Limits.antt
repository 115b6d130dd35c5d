-- ===== src/Spokes/Limits.antt =====
-- The settings of internal/spokes/spokes.go, read from the configuration and from sockstat.
use spokes_receive_pack.Base.{
  Bool, ◌&&◌, ◌||◌, [], ◌∷◌, Bytes, codes, ◌*◌, if◌then◌else◌, equal, ℤ, pos,
}
use spokes_receive_pack.Base.Exec.{Result, ok}
use spokes_receive_pack.Config.{Config, get, parse_signed}
use spokes_receive_pack.Sockstat.{Environment, get_bool}

-- isReportStatusFFConfigEnabled
unfoldable pub is_report_status_ff_config_enabled : Config → Bool
is_report_status_ff_config_enabled c = equal (get c (codes "receive.reportStatusFF")) (codes "true")

-- isFsckConfigEnabled
unfoldable pub is_fsck_config_enabled : Config → Bool
is_fsck_config_enabled c =
    equal (get c (codes "receive.fsckObjects")) (codes "true")
    || equal (get c (codes "transfer.fsckObjects")) (codes "true")

-- isImporting
unfoldable pub is_importing : Environment → Bool
is_importing env = get_bool env (codes "is_importing")

-- skipPushLimit
unfoldable pub skip_push_limit : Environment → Bool
skip_push_limit env = get_bool env (codes "import_skip_push_limit")

-- allowBadDate
unfoldable pub allow_bad_date : Environment → Bool
allow_bad_date env = is_importing env && get_bool env (codes "allow_baddate_in_import")

-- A setting that is a number, or 0 where it is not set.
unfoldable pub numeric_setting : Bytes → Result ℤ
numeric_setting [] = ok (pos 0)
numeric_setting (c ∷ s) = parse_signed (c ∷ s)

-- getMaxInputSize
unfoldable pub get_max_input_size : Config → Environment → Result ℤ
get_max_input_size c env =
    if is_importing env || skip_push_limit env
    then ok (pos (80 * 1024 * 1024 * 1024))
    else numeric_setting (get c (codes "receive.maxsize"))

-- getWarnObjectSize
unfoldable pub get_warn_object_size : Config → Result ℤ
get_warn_object_size c = numeric_setting (get c (codes "receive.warnobjectsize"))

-- getRefUpdateCommandLimit
unfoldable pub get_ref_update_command_limit : Config → Result ℤ
get_ref_update_command_limit c = numeric_setting (get c (codes "receive.refupdatecommandlimit"))

-- getPushOptionsCountLimit
unfoldable pub get_push_options_count_limit : Config → Result ℤ
get_push_options_count_limit c = numeric_setting (get c (codes "receive.pushoptionscountlimit"))
