-- ===== src/VideoCommands/Specs.antt =====
-- The mode that `apply_mode` of src/kernel/cmd_video.c makes of a specification.
use alma_os.Video.{Video}
