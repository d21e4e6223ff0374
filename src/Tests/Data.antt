-- ===== src/Tests/Data.antt =====
-- The site on which the theorems are run: one target with an open incident, and its escalation.
use statuspage.Base.{true, ℕ, Option, none, some, List, [], ◌∷◌, false, pos, String}
use statuspage.Domain.Time.{Uuid, DateTime}
use statuspage.Domain.Status.{CheckStatus, down, major, incident_opened, pending, ui}
use statuspage.Domain.Incident.{Incident}
use statuspage.Domain.Monitor.{CheckResult, Target}
use statuspage.Domain.Silence.{SilenceRule}
use statuspage.Domain.Channel.{NotificationChannel, pagerduty}
use statuspage.Domain.Delivery.{SubscriberDelivery, webhook}
use statuspage.Domain.Escalation.{user, EscalationStep, EscalationPolicy, IncidentEscalationState}
use statuspage.Storage.Memory.{MemoryStorage}
use statuspage.Storage.Incidents.{IncidentOpsPatch}
use statuspage.Server.Dispatch.{Surroundings}

-- An incident of target 7.
abbrev pub outage : Uuid → DateTime → Option DateTime → Option ℕ → Incident
outage id started_at ended_at duration_secs = record {
  id = id;
  target_id = 7;
  started_at = started_at;
  ended_at = ended_at;
  status = down;
  duration_secs = duration_secs;
  check_count = 2;
  error_sample = some "timeout";
  severity = major;
  public_title = none;
  public_description = none;
  created_at = none;
  updated_at = none;
  updates = [];
  regions_down = [];
  regions_up = [];
}

abbrev pub ongoing_outage : Incident
ongoing_outage = outage 11 50 none none

abbrev pub past_outage : Incident
past_outage = outage 10 20 (some 30) (some 0)

abbrev pub rung : Uuid → ℕ → EscalationStep
rung id level = record {
  id = id;
  level = pos level;
  delay_secs = pos 60;
  targets =
      record {
        id = 500;
        target_type = user;
        user_id = some 9;
        schedule_id = none;
        channel_id = none;
      }
      ∷ [];
}

abbrev pub night_policy : EscalationPolicy
night_policy = record {
  id = 40;
  name = "night";
  description = none;
  repeat_count = pos 1;
  steps = rung 41 1 ∷ rung 42 2 ∷ [];
  created_at = 0;
  updated_at = 0;
}

abbrev pub waiting_state : IncidentEscalationState
waiting_state = record {
  incident_id = 11;
  policy_id = 40;
  current_level = pos 0;
  current_round = pos 0;
  last_paged_at = 50;
  next_check_at = 60;
  acked = false;
}

-- The store of the site, by its incidents and its escalation states.
abbrev pub site : List (ℕ × Incident) → List (ℕ × IncidentEscalationState) → MemoryStorage
site incidents states = record {
  status_pages = [];
  status_page_components = [];
  subscribers = [];
  notification_channels = [];
  targets = [];
  results = [];
  incidents = incidents;
  maintenance_windows = [];
  silence_rules = [];
  subscriber_deliveries = [];
  escalation_policies = (40, night_policy) ∷ [];
  escalation_states = states;
}

abbrev pub burning_site : MemoryStorage
burning_site = site ((10, past_outage) ∷ (11, ongoing_outage) ∷ []) ((11, waiting_state) ∷ [])

abbrev pub calm_site : MemoryStorage
calm_site = site ((10, past_outage) ∷ []) []

abbrev pub check : DateTime → CheckStatus → CheckResult
check timestamp status = record {
  target_id = 7;
  org_id = 1;
  timestamp = timestamp;
  status = status;
  duration_ms = 12;
  dns_ms = none;
  connect_ms = none;
  tls_ms = none;
  ttfb_ms = none;
  response_code = none;
  response_size = none;
  error = none;
}

abbrev pub surroundings : DateTime → Uuid → Surroundings
surroundings now new_id = record {
  now = now;
  new_id = new_id;
  delivery_id = λ n. n;
  title = λ target_id. "outage";
  payload = λ incident reason. "{}";
}

abbrev pub requested : String → IncidentOpsPatch
requested transition = record {
  transition = some transition;
  assignee_id = none;
  publish = none;
  severity = none;
  note = some "on it";
}

abbrev pub night_silence : SilenceRule
night_silence = record {
  id = 60;
  title = "night";
  description = none;
  target_id = some 7;
  channel_id = none;
  reasons = incident_opened ∷ [];
  starts_at = 10;
  ends_at = 90;
  created_at = 0;
  updated_at = 0;
  write_source = ui;
}

abbrev pub shop : Target
shop = record {
  id = 7;
  name = "shop";
  enabled = true;
  tags = [];
  alerts = 3 ∷ 4 ∷ [];
  alert_confirmations = 2;
  notify_recovery = true;
  renotify_interval_secs = 0;
  group_name = none;
  owner_user_id = none;
  escalation_policy_id = some 40;
  created_at = 0;
  updated_at = 0;
  write_source = ui;
}

abbrev pub pager : NotificationChannel
pager = record { id = 3; name = "pager"; kind = pagerduty; enabled = true; verified_at = none }

-- The burning site with its target, a channel and a silence that is over at 90.
abbrev pub silenced_site : MemoryStorage
silenced_site = record burning_site {
  targets = (7, shop) ∷ [];
  notification_channels = (3, pager) ∷ [];
  silence_rules = (60, night_silence) ∷ [];
}

abbrev pub queued : Uuid → SubscriberDelivery
queued id = record {
  id = id;
  subscriber_id = 70;
  status_page_id = 80;
  channel = webhook;
  target = "https://example.org";
  payload = "{}";
  reason = incident_opened;
  status = pending;
  attempts = 0;
  last_error = none;
  created_at = 0;
  sent_at = none;
  next_attempt_at = some 0;
}

abbrev pub queue_site : MemoryStorage
queue_site = record calm_site { subscriber_deliveries = queued 90 ∷ queued 91 ∷ [] }
