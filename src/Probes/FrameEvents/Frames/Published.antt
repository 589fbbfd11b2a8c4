-- ===== src/Probes/FrameEvents/Frames/Published.antt =====
-- A published frame can be asked for, and the cache stays in order.
use vms_engine.Common.{◌≡◌, Option, none, some, List, [], ◌∷◌, if_keep, ℤ, int_of_u32, map}
use vms_engine.Evidence.Cache.{BatchSurface, Cache, Metadata, resolve, Entry}
use vms_engine.Evidence.Cache.Owned.{IsSound, store_frame-IsSound}
use vms_engine.Evidence.Cache.Store.{own_request}
use vms_engine.Probes.FrameEvents.{FrameEventObject}
use vms_engine.Probes.FrameEvents.Frames.{FrameMeta, Machine, Handler, Message, to_snapshot}
use vms_engine.Probes.FrameEvents.Frames.Buffer.{
  cache_frame, finish_frame, process_frame, on_buffer,
}

-- The cache of the handler, if it has one, is in order.
abbrev pub CacheIsSound : Option Cache → Type 0
CacheIsSound none = Unit
CacheIsSound (some c) = IsSound c

cache_frame-CacheIsSound :
    (machine : Machine) (h : Handler) (batch : Option BatchSurface) (f : FrameMeta)
    (meta : Metadata) (objects : List FrameEventObject) (cache : Option Cache)
    → CacheIsSound h.cache
    → CacheIsSound cache
    → CacheIsSound (cache_frame machine h batch f meta objects cache).cache
unfolding cache_frame
cache_frame-CacheIsSound machine h none f meta objects cache s t = s
cache_frame-CacheIsSound machine h (some b) f meta objects none s t = s
cache_frame-CacheIsSound machine h (some b) f meta objects (some c) s t =
    store_frame-IsSound machine.surfaces c meta (map to_snapshot objects) (some b)
      (int_of_u32 f.batch_id) (machine.clock h.reads) t

process_frame-CacheIsSound :
    (machine : Machine) (h : Handler) (batch : Option BatchSurface) (f : FrameMeta)
    → CacheIsSound h.cache
    → CacheIsSound (process_frame machine h batch f).0.cache
unfolding process_frame finish_frame
process_frame-CacheIsSound machine h batch f s =
    if_keep (λ (r : Handler × Option Message). CacheIsSound r.0.cache) _ _ _ s
      (cache_frame-CacheIsSound machine _ batch f _ _ h.cache s s)

-- A buffer leaves the frame cache in order, whatever its frames are.
pub on_buffer-CacheIsSound :
    (machine : Machine) (h : Handler) (batch : Option BatchSurface) (fs : List FrameMeta)
    → CacheIsSound h.cache
    → CacheIsSound (on_buffer machine h batch fs).0.cache
unfolding on_buffer
on_buffer-CacheIsSound machine h batch [] s = s
on_buffer-CacheIsSound machine h batch (f ∷ fs) s =
    on_buffer-CacheIsSound machine (process_frame machine h batch f).0 batch fs
      (process_frame-CacheIsSound machine h batch f s)

-- What the cache answers to a request for a frame.
abbrev pub answer_to : Option Cache → Metadata → ℤ → ℤ → Option Entry
answer_to none meta ts later = none
answer_to (some c) meta ts later = (resolve c (own_request meta ts) later).1

-- What a frame that is published leaves behind.
record IsPublished (machine : Machine) (h : Handler) (batch : Option BatchSurface) (f : FrameMeta)
    (m : Message) (after : Handler) : Type 0 where
  cached : after ≡ cache_frame machine h batch f m.meta m.objects h.cache
