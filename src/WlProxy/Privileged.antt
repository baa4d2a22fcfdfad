-- ===== src/WlProxy/Privileged.antt =====
-- crates/bubbler-wl-proxy/src/privileged.rs: the interfaces that the proxy never shows to a sandbox.
use bubbler.Prelude.{ℕ, List, [], ◌∷◌, codes}

unfoldable pub privileged : List (List ℕ)
privileged =
    codes "ext_data_control_manager_v1"
    ∷ codes "ext_foreign_toplevel_image_capture_source_manager_v1"
    ∷ codes "ext_foreign_toplevel_list_v1"
    ∷ codes "ext_idle_notifier_v1"
    ∷ codes "ext_image_copy_capture_manager_v1"
    ∷ codes "ext_output_image_capture_source_manager_v1"
    ∷ codes "ext_session_lock_manager_v1"
    ∷ codes "ext_transient_seat_manager_v1"
    ∷ codes "ext_workspace_manager_v1"
    ∷ codes "hyprland_ctm_control_manager_v1"
    ∷ codes "hyprland_focus_grab_manager_v1"
    ∷ codes "hyprland_global_shortcuts_manager_v1"
    ∷ codes "hyprland_input_capture_manager_v1"
    ∷ codes "hyprland_lock_notifier_v1"
    ∷ codes "hyprland_toplevel_export_manager_v1"
    ∷ codes "hyprland_toplevel_mapping_manager_v1"
    ∷ codes "vicinae_hotkey_manager_v1"
    ∷ codes "wp_content_type_manager_v1"
    ∷ codes "wp_drm_lease_device_v1"
    ∷ codes "wp_pointer_warp_v1"
    ∷ codes "wp_security_context_manager_v1"
    ∷ codes "xwayland_shell_v1"
    ∷ codes "xx_input_method_manager_v2"
    ∷ codes "zwlr_data_control_manager_v1"
    ∷ codes "zwlr_export_dmabuf_manager_v1"
    ∷ codes "zwlr_foreign_toplevel_manager_v1"
    ∷ codes "zwlr_gamma_control_manager_v1"
    ∷ codes "zwlr_input_inhibit_manager_v1"
    ∷ codes "zwlr_layer_shell_v1"
    ∷ codes "zwlr_output_manager_v1"
    ∷ codes "zwlr_output_power_manager_v1"
    ∷ codes "zwlr_screencopy_manager_v1"
    ∷ codes "zwlr_virtual_pointer_manager_v1"
    ∷ codes "zwp_fullscreen_shell_v1"
    ∷ codes "zwp_input_method_manager_v2"
    ∷ codes "zwp_input_method_v1"
    ∷ codes "zwp_input_panel_v1"
    ∷ codes "zwp_virtual_keyboard_manager_v1"
    ∷ codes "zwp_xwayland_keyboard_grab_manager_v1"
    ∷ codes "zxdg_output_manager_v1"
    ∷ []
