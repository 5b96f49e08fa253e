-- ===== src/Extractor/Resolve/Absolute.antt =====
-- What `extractor_resolve_url` returns is absolute when its base is.
use hyperflux.Common.{ℕ, ◌+◌, ◌≡◌, some, take}
use hyperflux.Extractor.{Text}
use hyperflux.Extractor.Resolve.{find_scheme}

-- The first "://" of both stands at `sep`, with the same text before it.
unfoldable pub SameScheme : Text → ℕ → Text → Type 0
SameScheme base sep url = (find_scheme url ≡ some sep) × (take (sep + 3) url ≡ take (sep + 3) base)
