-- ===== src/Permissions.antt =====
-- internal/mcp/permissions.go: which role may call which tool.
mod Roles
mod Tests
use deploypilot.Base.{
  ℕ, Bool, true, false, Option, none, some, [], ◌∷◌, String, Dict, lookup, leb, ◌==◌, nat_tested,
  if◌then◌else◌,
}

-- `ToolPermissions`
unfoldable pub tool_permissions : Dict ℕ
tool_permissions =
    ("list_apps", 1)
    ∷ ("get_app_detail", 1)
    ∷ ("list_servers", 1)
    ∷ ("list_credentials", 1)
    ∷ ("list_dns_records", 1)
    ∷ ("list_templates", 1)
    ∷ ("get_template", 1)
    ∷ ("list_env_templates", 1)
    ∷ ("get_env_template", 1)
    ∷ ("get_deploy_status", 1)
    ∷ ("get_task_status", 1)
    ∷ ("list_tasks", 1)
    ∷ ("list_deployments", 1)
    ∷ ("detect_environment", 1)
    ∷ ("health_check", 1)
    ∷ ("doctor", 1)
    ∷ ("get_container_metrics", 1)
    ∷ ("get_system_metrics", 1)
    ∷ ("list_alerts", 1)
    ∷ ("list_alert_rules", 1)
    ∷ ("query_metric_history", 1)
    ∷ ("query_alert_history", 1)
    ∷ ("get_ci_build_status", 1)
    ∷ ("list_ssl_certificates", 1)
    ∷ ("get_context", 1)
    ∷ ("detect_panel", 1)
    ∷ ("list_recent_operations", 1)
    ∷ ("list_clusters", 1)
    ∷ ("k8s_list_deployments", 1)
    ∷ ("k8s_get_pods", 1)
    ∷ ("deploy_app", 2)
    ∷ ("create_app", 2)
    ∷ ("update_app", 2)
    ∷ ("add_server", 2)
    ∷ ("update_server", 2)
    ∷ ("test_server", 2)
    ∷ ("add_credential", 2)
    ∷ ("update_credential", 2)
    ∷ ("add_dns_record", 2)
    ∷ ("update_dns_record", 2)
    ∷ ("rollback_app", 2)
    ∷ ("backup_database", 2)
    ∷ ("restore_database", 2)
    ∷ ("build_and_deploy", 2)
    ∷ ("send_notification", 2)
    ∷ ("heal_container", 2)
    ∷ ("check_deploy_readiness", 2)
    ∷ ("trigger_ci_build", 2)
    ∷ ("search_app_logs", 2)
    ∷ ("get_app_logs", 2)
    ∷ ("request_ssl_certificate", 2)
    ∷ ("renew_ssl_certificate", 2)
    ∷ ("registry_login", 2)
    ∷ ("push_image", 2)
    ∷ ("list_registry_tags", 2)
    ∷ ("ping_registry", 2)
    ∷ ("k8s_deploy", 2)
    ∷ ("list_plugins", 2)
    ∷ ("manage_plugin", 2)
    ∷ ("get_plugin_info", 2)
    ∷ ("delete_app", 3)
    ∷ ("delete_server", 3)
    ∷ ("delete_credential", 3)
    ∷ ("delete_dns_record", 3)
    ∷ ("batch_deploy", 3)
    ∷ ("batch_dns", 3)
    ∷ ("batch_backup", 3)
    ∷ ("delete_ssl_certificate", 3)
    ∷ ("exec_command", 3)
    ∷ ("port_forward", 2)
    ∷ ("list_images", 1)
    ∷ ("compose_deploy", 3)
    ∷ ("compose_stop", 3)
    ∷ ("compose_ps", 1)
    ∷ ("compose_logs", 1)
    ∷ ("compose_restart", 2)
    ∷ ("run_preflight", 1)
    ∷ ("create_scheduled_task", 3)
    ∷ ("list_scheduled_tasks", 1)
    ∷ ("get_task_executions", 1)
    ∷ ("toggle_scheduled_task", 3)
    ∷ ("delete_scheduled_task", 3)
    ∷ ("create_uptime_monitor", 2)
    ∷ ("list_uptime_monitors", 1)
    ∷ ("check_uptime_monitor", 2)
    ∷ ("get_monitor_sla", 1)
    ∷ ("delete_uptime_monitor", 3)
    ∷ ("create_heartbeat", 2)
    ∷ ("list_heartbeats", 1)
    ∷ ("delete_heartbeat", 3)
    ∷ ("update_user_role", 4)
    ∷ ("delete_user", 4)
    ∷ ("clear_context", 2)
    ∷ []

-- `RoleLevels`
unfoldable pub role_levels : Dict ℕ
role_levels = ("viewer", 1) ∷ ("dev", 2) ∷ ("admin", 3) ∷ ("owner", 4) ∷ []

-- `RequiredRoleName`
unfoldable pub required_role_name : ℕ → String
required_role_name level =
    if level == 1
    then "viewer"
    else if level == 2
    then "dev"
    else if level == 3
    then "admin"
    else if level == 4
    then "owner"
    else "unknown"

unfoldable pub permits : Option ℕ → Option ℕ → Bool
permits (some required) (some level) = leb required level
permits (some required) none = false
permits none level = false

-- `CheckPermission`
unfoldable pub check_permission : String → String → Bool
unfolding permits
check_permission tool role = permits (lookup tool tool_permissions) (lookup role role_levels)
