-- ===== src/Lifecycle/Nodes/Resuming.antt =====
-- litehive/roles/recovery.py, lifecycle/transitions.py: a recovery's resume target, from the text
-- of the verdict to the stage of the task.
use litehive.Base.Text.{Text, text_eq}
