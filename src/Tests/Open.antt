-- ===== src/Tests/Open.antt =====
-- The definitions that a run on a concrete input computes with.
use sideshow.Base.{text_eq, has_prefix, is_space, trim_space, to_lower, fields, decimal}
use sideshow.Mode.{
  kind, surface, param, set_param, str_of, bool_or, argv, is_wayland, is_wayland_primary,
  foreground, retires_when_done, runs_as_root, uses_chrome, is_cog_kiosk, normalize,
}
use sideshow.Mode.Command.{mode_command}
use sideshow.Mode.Validate.{is_web_url, is_media_url, is_absolute, validate}
use sideshow.Mode.Equivalent.{equivalent, label}
use sideshow.Supervisor.World.{
  pure, ◌>>=◌, ◌>>◌, gets, skip, ask, set_runner, set_fg, set_attached, set_vt, target, settled,
}
use sideshow.Supervisor.Surface.{
  activate_vt, detach, preflight, launch, stop, stop_any, is_alive, running_mode, primary_vt,
  cdp_port_of, base_vt, current_base_mode,
}
use sideshow.Supervisor.Switch.{url_of, dark_of, same_backend, show_again, switch}
use sideshow.Supervisor.Recover.{ended, shutdown}
use sideshow.Supervisor.Kiosk.{restart_mode}
use sideshow.Schedule.Clock.{skip_space, scan_digits, scan_int, parse_hhmm, minute_of}
use sideshow.Schedule.Calendar.{
  is_leap, days_in, day_number, weekday, day_before, padded, format_date, exact_digits, is_date,
  parse_date, valid_schedule_date,
}
use sideshow.Schedule.Sanitize.{
  minute, insert_by_time, sort_entries_by_time, trimmed, is_usable, collect_entries,
  sanitize_entries, sanitize_exceptions, time_or_empty, sanitize_nightly,
}
use sideshow.Schedule.Timeline.{
  entries_for, day_entries, merged_entries, effective_entries, pick_from, key_of, transition,
  desired,
}
use sideshow.Schedule.Picked.{latest}
use sideshow.Schedule.Engine.{
  persisted, save, load, new_scheduler, check_entries, check_days, check_exceptions, check_nightly,
  check, install, set, info_of, tick, migrate_nightly,
}
use sideshow.Node.Ident.{utf8, fnv, hex, hist_id}
use sideshow.Node.Reread.{reread}
use sideshow.Node.Ops.{
  new_state, item_of, push_history, remember, record_mode, restore, if_removed, delete_history,
  clear_history, set_setup_complete, set_local_input, local_input_allowed,
}
use sideshow.Node.Launchers.{
  mode_of, completed, check_custom, with_id, put_custom, add_custom, upsert_custom, delete_custom,
  find_custom, get_custom,
}
use sideshow.Node.Ops.{save as save_state}
use sideshow.Supervisor.RunLoop.{
  filter_after, retires, counted, respawn, after_exit, loop_step, run_loop,
}
use sideshow.Watchdog.{
  is_wedged, note_network, try_reboot, relaunch, try_reattach, escalate, check_wedge, count_down,
  check_down, watch_step, watch_rounds,
}
use sideshow.Watchdog.Reboots.{save_ledger, clear_ledger, allow_reboot}
use sideshow.Watchdog.Calm.{reboots}
use sideshow.Watchdog.Window.{watch_life}
use sideshow.Base.{
  trim_prefix, contains, trim_of, split_on, join_on, enter_all, names_of, clean, join_paths,
}
use sideshow.Files.Docs.{
  safe_doc_rel, safe_doc_path, is_http, filter_http, norm_transition, local_agent_base, abs_doc_url,
  with_pdf_viewer_params,
}
use sideshow.Files.Library.{
  deepest, checked_path, resolve, dir_abs, base, safe_name, mkdir, rename, delete, resolve_file,
}
use sideshow.Files.Source.{path_escape, url_escape_path, validate_trimmed, validate_doc_src}
use sideshow.Files.Upload.{save_to, save_file, ext, lib_kind}
use sideshow.Playlist.{
  is_playlist_kind, src_of, sanitize_item, collect_items, sanitize_items, new_playlist,
}
use sideshow.Playlist.{load as load_playlist, save as save_playlist, set as set_playlist}
use sideshow.Actions.Slugs.{squeeze, slugify, is_taken, numbered, next_free, unique_slug}
use sideshow.Actions.Store.{
  playlist_action_mode, tidy_playlist, wanted_slug, normal_action, normalize_from,
  normalize_actions, new_actions, find_id, others_than, put_action, next_index, check_action,
  final_slug, stored, upsert,
}
use sideshow.Actions.Store.{save as save_actions}
use sideshow.Actions.Ops.{
  find_slug, get, place_of, place_all, insert_by_index, sort_by_index, renumber, reorder, list,
  find_playlist, playlist_info, first_slug, current_slug, seed_all, seed,
}
use sideshow.Actions.Ops.{delete as delete_action}
use sideshow.Supervisor.Kiosk.{on_screen, advance_document, reload_web}
use sideshow.Content.Manage.{
  loaded, new_content, tick_document, tick_reload, set_reload, with_document, set_document,
  disable_owners, output_kind, put_output, mode_for, set_output_content, output_for,
}
use sideshow.Content.Manage.{save as save_content, tick as tick_content}
use sideshow.Display.Xrandr.{
  rotate_value, is_geometry, with_words, with_marks, outputs_from, parse_xrandr_outputs,
  flagged_name, parse_xrandr_primary, first_marks, first_from, parse_xrandr, mirrored, extended,
  xrandr_layout_args,
}
use sideshow.Display.Wayland.{
  header_names, parse_wlr_outputs, put_enabled, enabled_from, enabled_wayland_outputs, is_listed,
  is_enabled, has_keeper, wayland_outputs_to_disable,
}
use sideshow.Display.State.{
  lookup, put, remove, primary_rotation, loaded_rotations, new_display, enumerate, refresh_outputs,
  primary_name, apply_rotation, set_output,
}
use sideshow.Display.State.{save as save_display}
use sideshow.Display.Ops.{
  rotate, power_each, power_output, rotation_after, screen, run_all, rotate_all, set_layout,
  apply_rotation_at_boot, apply_layout_at_boot, asleep,
}
use sideshow.Supervisor.Kiosk.{shows_foreground, on_wayland_primary}
use sideshow.Server.{
  is_setup_bootstrap_mode, record_active, show_mode, show_url, show_media, launch_custom,
  run_action, fire_action, fire_scheduled, assign_output,
}

unfoldable pub strings_open : Unit {0}
unfolding text_eq has_prefix is_space trim_space to_lower fields decimal
strings_open = tt

unfoldable pub modes_open : Unit {0}
unfolding strings_open kind surface param set_param str_of bool_or argv is_wayland
    is_wayland_primary foreground retires_when_done runs_as_root uses_chrome is_cog_kiosk normalize
    mode_command is_web_url is_media_url is_absolute validate equivalent
modes_open = tt

unfoldable pub screen_open : Unit {0}
unfolding modes_open pure ◌>>=◌ ◌>>◌ gets skip ask set_runner set_fg set_attached set_vt target
    settled activate_vt detach preflight launch stop stop_any is_alive running_mode primary_vt
    cdp_port_of base_vt current_base_mode url_of dark_of same_backend show_again switch ended
    shutdown restart_mode
screen_open = tt

unfoldable pub schedule_open : Unit {0}
unfolding strings_open skip_space scan_digits scan_int parse_hhmm minute_of is_leap days_in
    day_number weekday day_before padded format_date exact_digits is_date parse_date
    valid_schedule_date minute insert_by_time sort_entries_by_time trimmed is_usable collect_entries
    sanitize_entries sanitize_exceptions time_or_empty sanitize_nightly entries_for day_entries
    merged_entries effective_entries pick_from key_of transition desired latest persisted save load
    new_scheduler check_entries check_days check_exceptions check_nightly check install set info_of
    tick migrate_nightly
schedule_open = tt

unfoldable pub node_open : Unit {0}
unfolding modes_open label utf8 fnv hex hist_id reread new_state item_of push_history remember
    record_mode restore if_removed delete_history clear_history set_setup_complete set_local_input
    local_input_allowed mode_of completed check_custom with_id put_custom add_custom upsert_custom
    delete_custom find_custom get_custom save_state
node_open = tt

unfoldable pub loop_open : Unit {0}
unfolding modes_open filter_after retires counted respawn after_exit loop_step run_loop
loop_open = tt

unfoldable pub watch_open : Unit {0}
unfolding modes_open is_wedged note_network try_reboot relaunch try_reattach escalate check_wedge
    count_down check_down watch_step watch_rounds save_ledger clear_ledger allow_reboot reboots
    watch_life
watch_open = tt

unfoldable pub files_open : Unit {0}
unfolding strings_open trim_prefix contains trim_of split_on join_on enter_all names_of clean
    join_paths safe_doc_rel safe_doc_path is_http filter_http norm_transition local_agent_base
    abs_doc_url with_pdf_viewer_params deepest checked_path resolve dir_abs base safe_name mkdir
    rename delete resolve_file utf8 path_escape url_escape_path validate_trimmed validate_doc_src
    save_to save_file ext lib_kind
files_open = tt

unfoldable pub playlist_open : Unit {0}
unfolding files_open utf8 fnv hex hist_id is_playlist_kind src_of sanitize_item collect_items
    sanitize_items load_playlist new_playlist save_playlist set_playlist
playlist_open = tt

unfoldable pub actions_open : Unit {0}
unfolding node_open playlist_open squeeze slugify is_taken numbered next_free unique_slug
    playlist_action_mode tidy_playlist wanted_slug normal_action normalize_from normalize_actions
    new_actions find_id others_than put_action next_index check_action final_slug stored upsert
    save_actions find_slug get place_of place_all insert_by_index sort_by_index renumber reorder
    list find_playlist playlist_info first_slug current_slug seed_all seed delete_action
actions_open = tt

unfoldable pub content_open : Unit {0}
unfolding screen_open files_open on_screen advance_document reload_web loaded new_content
    tick_document tick_reload tick_content set_reload with_document set_document disable_owners
    output_kind put_output mode_for set_output_content output_for save_content
content_open = tt

unfoldable pub display_open : Unit {0}
unfolding files_open rotate_value is_geometry with_words with_marks outputs_from
    parse_xrandr_outputs flagged_name parse_xrandr_primary first_marks first_from parse_xrandr
    mirrored extended xrandr_layout_args header_names parse_wlr_outputs put_enabled enabled_from
    enabled_wayland_outputs is_listed is_enabled has_keeper wayland_outputs_to_disable lookup put
    remove primary_rotation loaded_rotations new_display enumerate refresh_outputs primary_name
    apply_rotation set_output rotate power_each power_output rotation_after screen run_all
    rotate_all set_layout apply_rotation_at_boot apply_layout_at_boot asleep save_display
display_open = tt

unfoldable pub server_open : Unit {0}
unfolding content_open display_open node_open actions_open shows_foreground on_wayland_primary
    is_setup_bootstrap_mode record_active show_mode show_url show_media launch_custom run_action
    fire_action fire_scheduled assign_output
server_open = tt
