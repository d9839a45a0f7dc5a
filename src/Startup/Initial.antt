-- ===== src/Startup/Initial.antt =====
-- groove/proxy/main.go: the state of the proxy before its first request.
use grooveproxy.Base.{◌*◌, ◌≡◌, refl, sym, List, [], ◌∷◌, Option, none, String, empty_map}
use grooveproxy.Base.Int64.{pos}
use grooveproxy.Cache.{cache_mode_standard, new_cache}
use grooveproxy.CertInstall.{}
use grooveproxy.Dialers.{new_dialer_session, new_dialer_definition}
use grooveproxy.Invalidator.{
  CacheInvalidator, new_cache_invalidator, build_memory_cache, build_disk_cache, load_index,
  push_back, read_index,
}
use grooveproxy.Lru.{LruCache, new_lru_cache}
use grooveproxy.Lru.Recency.{CacheMetadata}
use grooveproxy.Proxy.Serve.{Groove}
use grooveproxy.Recorder.{recorder_mode_off, new_recorder}
use grooveproxy.Startup.{Flags, initial_groove, passthrough_session}
use grooveproxy.Transport.{new_custom_round_tripper}

-- Specification: the proxy neither records nor plays, and its cache is in the standard mode.
pub record IsInitial {D : Type 0} (disk : D) (index_file : Option (List CacheMetadata))
    (uuid : String) (groove : Groove D) : Type 0 where
  pub recorder :
      groove.proxy.recorder
      ≡ record { mode = recorder_mode_off; records = []; consumed_records = []; next_address = 0 }
  pub cache_mode : groove.proxy.cache.mode ≡ cache_mode_standard
  -- 20 MB in memory, 500 MB on disk, and a save of the index at every tenth write
  pub cache_store :
      groove.proxy.cache.cache_disk_cache ≡ new_cache_invalidator disk index_file 20 500 10
  pub memory_limit : groove.proxy.cache.cache_disk_cache.memory_cache.max_size ≡ pos 20971520
  pub disk_limit : groove.proxy.cache.cache_disk_cache.disk_cache.max_size ≡ pos 524288000
  pub memory_empty : groove.proxy.cache.cache_disk_cache.memory_cache.ordered_cache_keys ≡ []
  pub inflight_requests : groove.proxy.cache.inflight_requests ≡ empty_map
  pub blocking_locks : groove.proxy.cache.blocking_locks ≡ empty_map
  -- nothing is known of any host yet
  pub handlers : groove.round_tripper.handler_map ≡ empty_map
  pub protocols : groove.round_tripper.protocol_map ≡ empty_map
  -- the one dialer takes every request straight to the Internet
  pub dialers : groove.round_tripper.dialer_session ≡ record {
    dialer_definitions =
        record { identifier = uuid; priority = pos 0; proxy = none; request_requires = none } ∷ [];
    total_tries = pos 0;
  }

-- The entries of the index do not change the limit.
load_index-max_size :
    {S : Type 0} (metadatas : List CacheMetadata) (c : LruCache S)
    → (load_index metadatas c).max_size ≡ c.max_size
unfolding load_index push_back
load_index-max_size [] c = refl
load_index-max_size (metadata ∷ rest) c = load_index-max_size rest (push_back metadata c)

module _ {D : Type 0} (disk : D) (index_file : Option (List CacheMetadata)) (uuid : String)
    (flags : Flags) where
  abbrev store : CacheInvalidator D
  store = new_cache_invalidator disk index_file 20 500 10

  memory_limit_lem : store.memory_cache.max_size ≡ pos 20971520
  unfolding new_cache_invalidator build_memory_cache new_lru_cache
  memory_limit_lem = refl

  memory_empty_lem : store.memory_cache.ordered_cache_keys ≡ []
  unfolding new_cache_invalidator build_memory_cache new_lru_cache
  memory_empty_lem = refl

  disk_limit_lem : store.disk_cache.max_size ≡ pos 524288000
  unfolding new_cache_invalidator build_disk_cache new_lru_cache
  disk_limit_lem =
      load_index-max_size (read_index index_file).0
        (new_lru_cache disk (read_index index_file).1 (pos (1024 * 1024 * 500)))

  pub initial_groove-IsInitial :
      IsInitial disk index_file uuid (initial_groove disk index_file uuid flags)
  unfolding initial_groove new_recorder new_cache new_custom_round_tripper passthrough_session
      new_dialer_session new_dialer_definition
  initial_groove-IsInitial = record {
    recorder = refl;
    cache_mode = refl;
    cache_store = refl;
    memory_limit = memory_limit_lem;
    disk_limit = disk_limit_lem;
    memory_empty = memory_empty_lem;
    inflight_requests = refl;
    blocking_locks = refl;
    handlers = refl;
    protocols = refl;
    dialers = refl;
  }

  pub IsInitial-initial_groove :
      (groove : Groove D)
      → IsInitial disk index_file uuid groove
      → initial_groove disk index_file uuid flags ≡ groove
  unfolding initial_groove new_recorder new_cache new_custom_round_tripper passthrough_session
      new_dialer_session new_dialer_definition
  IsInitial-initial_groove groove s = λ i. record {
    proxy = record {
      recorder = sym s.recorder i;
      cache = record {
        mode = sym s.cache_mode i;
        cache_disk_cache = sym s.cache_store i;
        inflight_requests = sym s.inflight_requests i;
        blocking_locks = sym s.blocking_locks i;
      };
    };
    round_tripper = record {
      handler_map = sym s.handlers i;
      protocol_map = sym s.protocols i;
      dialer_session = sym s.dialers i;
    };
  }
