-- ===== src/Activity/Histories.antt =====
-- src/activity.ts: the invariant of the activity slot over every history.
use cantelop_sdk.Activity.Options.{Options}
