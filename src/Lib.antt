-- ===== src/Lib.antt =====
-- A verification library for sveltego, a framework that serves SvelteKit-shaped applications from
-- a Go binary: at build time it scans the routes and generates Go code, at run time it resolves a
-- request against the route table, runs hooks, checks and handlers, and renders.
--
-- The parts and how they interact. At build time packages/sveltego/internal/routescan reads the
-- names of the route directories as segments, and packages/sveltego/internal/lexer cuts templates
-- into tokens. packages/sveltego/runtime/router holds the route table; the
-- server (packages/sveltego/server) asks it for a route, applies the route's page options
-- (packages/sveltego/exports/kit/page_options.go), checks the CSRF token of a POST with the cookie
-- jar of packages/sveltego/exports/kit/cookies.go, and renders with the escapes of
-- packages/sveltego/render; a page that cannot be rendered in Go goes to a sidecar, whose answers
-- packages/sveltego/runtime/svelte/fallback caches. Applications add packages/cookiesession
-- (sessions in encrypted cookies) and packages/auth (users, accounts and sessions in a store).
--
-- What models what, with the functions under their Go names in snake case:
--   Base         strings as lists of bytes, Go's maps as association lists with lookup, insert,
--                delete and the deleting range loop, (value, error) pairs, decimal numbers
--   Http         the cookies that a response sets
--   Router       runtime/router: Segment (segment.go, route.go), Tree, Spec and Table (tree.go), State
--                (the capture stack of match.go), Split (splitAndDecodeInto), Match (matchNode),
--                Resolve (Match). Paths and Match.Search are the specification: which paths of labels
--                lead to a route, which patterns fit a path, and the search without state. Replaced is
--                about tables whose routes clash
--   Kit          exports/kit: PageOptions with the layout cascade, Cookies with the jar
--   Server       Resolve (what resolve of server/pipeline.go does with a request), Actions
--                (server/actions.go and server/enhance.go), Csrf (server/csrf.go and
--                exports/kit/csrf.go), Slash (the trailing-slash policy), Script (the escapes for
--                what stands in a script, both of server/pipeline.go) and Handle: Entry (handle,
--                runHandle and writeResponse), Errors (server/errors.go), Chain (the errors of
--                exports/kit/sentinels.go and exports/kit/hooks.go) and Writer (the response)
--   Lexer        internal/lexer: Tokens (token.go), Cursor, Loops and State (what the lexer is made of),
--                Mustache, Raw, Texts, Tags and Next (its modes); Positions is the specification of
--                lines and columns, Literals and Nesting that of what stands between braces; Moves, Unroll,
--                Spans, Progress and Calls are the proofs
--   Routescan    internal/routescan: Segments (segments.go and patternShape of scan.go)
--   Render       render/escape.go, its reference and a reader of character references
--   Fallback     fallback/cache.go; Refines is its specification, a list in the order of use
--   CookieSession  codec.go (Codec), the cookies of session.go (Cookies) and its Session; Browser is
--                what is assumed of a browser
--   Auth         csrf.go (Csrf), identity.go and storage/memory/memory.go; Reach gives the states that callers reach
--                who use fresh IDs and free emails, Duplicates what happens to the others
--
-- State is passed on explicitly: an operation takes the state and returns the new one. A method that
-- holds a lock is one step. A clock reading, a random token, the encryption, the JSON marshaller, the
-- matchers of route parameters and the browser are arguments; the browser's laws are those of
-- RFC 6265 and the codec's those of its round trip.
--
-- Numbers are natural numbers. An integer that can be negative in Go is given the shape that its
-- readers tell apart (a cookie's MaxAge, a duration with a direction); the FNV hash of a route is
-- taken modulo 2^32 and a chunk count is read below 2^63. The runes of a name, and which of them are
-- letters and digits, are arguments. Loops over lists are structural. The other loops run on fuel: the
-- chunk loop with the length of the wire, of which each round takes a byte, the eviction loop with
-- the length of the list, of which each round takes an element, the loops of the lexer with the bytes
-- that are left, of which each round takes one, and the escapes for scripts with the bytes of their
-- text; the proofs on each show that this is enough. Itoa has fuel for more digits than a number has.
--
-- Not modelled: the code generator with the parser and the driver of vite, the directory walk of
-- routescan, the renderers that resolve hands on to, the logger, the policy on content, the
-- adapters, the command line tools, the storage adapters on SQL, the mailers, and the cryptography.
-- Handlers are modelled by whether they are set, actions and hooks by what they return, the renderer
-- of an error page by the text that it writes. An error is the list of the errors in its chain. The
-- text of a status and the form of a cookie, which net/http gives, are arguments, and so is what
-- http.Redirect makes of a location with respect to the request's path.
pub mod Auth
mod Base
pub mod CookieSession
pub mod Fallback
pub mod Http
pub mod Kit
pub mod Lexer
pub mod Render
pub mod Router
pub mod Routescan
pub mod Server
