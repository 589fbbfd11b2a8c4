-- ===== src/Probes/Crops/Publish/Paths.antt =====
-- pipeline/src/probes/crop_object_handler.cpp: the names of the picture files.
use vms_engine.Common.{
  ◌||◌, Option, none, some, [], ◌∷◌, ◌++◌, Text, codes, text_eq, nat_eq, ◌==◌, is_empty,
  if◌then◌else◌, nat_to_string,
}
use vms_engine.Probes.Crops.Publish.{CropObject, FrameProcessContext, CropSettings, sanitize_label}

-- What is left of `path` after `prefix`.
unfoldable pub strip : Text → Text → Option Text
strip [] path = some path
strip (b ∷ prefix) [] = none
strip (b ∷ prefix) (c ∷ path) = let rest = strip prefix path in if b == c then rest else none

abbrev pub drop_slash : Text → Text
drop_slash [] = []
drop_slash (c ∷ cs) = if c == b'/' then cs else c ∷ cs

unfoldable pub relative_from : Text → Option Text → Text
relative_from path none = path
relative_from path (some []) = path
relative_from path (some (c ∷ cs)) = drop_slash (c ∷ cs)

unfoldable pub relative_path : Text → Text → Text
relative_path save_dir_base path =
    if is_empty path || is_empty save_dir_base
    then path
    else relative_from path (strip save_dir_base path)

unfoldable pub crop_path_of : CropSettings → FrameProcessContext → CropObject → Text
crop_path_of g ctx o =
    g.current_day_dir
    ++ (codes "/s"
        ++ (nat_to_string ctx.source_id
            ++ (codes "_RT"
                ++ (ctx.realtime_str
                    ++ (codes "_"
                        ++ (sanitize_label o.obj_label
                            ++ (codes "_id" ++ (nat_to_string o.object_id ++ codes ".jpg"))))))))
