-- ===== src/RunState/Tests.antt =====
-- Runs of the status machine, and instances of its theorems.
use lingxi_learn.Prelude.{◌≡◌, refl, String, true, List, [], ◌∷◌}
use lingxi_learn.RunState.{
  executing, completed, ok, bad_value, illegal_transition, transition, drive, of_value,
}
use lingxi_learn.RunState.Paths.{drive-settles, settles}

abbrev round : List String
round = "OBSERVING" ∷ "UPDATING" ∷ "COMPLETED" ∷ []

round_completes : drive executing round ≡ ok completed
unfolding drive
round_completes = refl

unknown_status : transition "PLANNING" "DONE" ≡ bad_value
unfolding transition of_value
unknown_status = refl

no_shortcut : transition "EXECUTING" "COMPLETED" ≡ illegal_transition executing completed
unfolding transition of_value
no_shortcut = refl

stays_completed : drive completed ("COMPLETED" ∷ []) ≡ ok completed
unfolding drive
stays_completed = refl

drive-settles_example : settles round ≡ true
drive-settles_example = drive-settles executing round refl round_completes
