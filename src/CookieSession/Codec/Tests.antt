-- ===== src/CookieSession/Codec/Tests.antt =====
-- Chunks and counts at small inputs.
use sveltego.CookieSession.Codec.{split_chunks, join_chunks}
use sveltego.CookieSession.Codec.Chunks.{all_full, join-split_chunks}
use sveltego.Base.{◌≡◌, ◌≢◌, true, [], str}

join-split_chunks_example :
    (join_chunks (split_chunks (str "wire")) ≡ str "wire")
    × (str "wire" ≢ [] → all_full (split_chunks (str "wire")) ≡ true)
join-split_chunks_example = join-split_chunks (str "wire")
