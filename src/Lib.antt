-- ===== src/Lib.antt =====
-- The loa is a small robot body: daemons that each own one piece of hardware, and a brain, the
-- cortex, that hears them and publishes what the body shows. They speak protobuf messages over
-- ZeroMQ under the contract of crates/loa-wire. A sensor daemon publishes only what changed; the
-- cortex merges by presence; the ring daemon picks what the light tells from what it has heard; a
-- sweep once a minute says what hurts.
--
-- Base               helpers: Boolean tests, lists and integers over the native numbers, and the
--                    record of float operations that the daemons' times and distances use
-- Wire.Pb            the messages of proto/loa.proto, with the fields that the crates use
-- Wire.Contract      crates/loa-wire/src/lib.rs: encode, decode, route_parts; Contract.Blob is a
--                    concrete codec for the examples
-- Motion             crates/loa-motion/src/state.rs: tick is Pir::tick, in the parts edge (the
--                    transition) and debounce (the streak and the cooldown); a state is a Machine
-- Motion.Process     crates/loa-motion/src/main.rs: the start, the sample and the loop
-- Sense              crates/loa-sense/src/lib.rs: what the sensor daemons share (publish, the answer to
--                    an ask, the loop); Cortex.Heard is the daemon as the cortex hears it
-- Cortex             crates/loa-cortex/src/state.rs: State and Cortex; Merge is Cortex::merge, one
--                    function per payload
-- Cortex.Moods       crates/loa-cortex/src/moods.rs
-- Cortex.Verbs       crates/loa-cortex/src/verbs.rs: each verb returns the state and the answer
-- Cortex.Build       crates/loa-cortex/src/build.rs: the messages, as functions of the state and of
--                    the clock's reading
-- Cortex.Settings    settings_snapshot and adopt_settings of crates/loa-cortex/src/main.rs
-- Cortex.Process     the helpers of crates/loa-cortex/src/main.rs: the pressure trend, the weather,
--                    which settings a message answers; Cortex.Inbox is the inbox: what a frame does
--                    to the state, to the published messages and to the rows; Cortex.Answer reads
--                    off a reading what that must be
-- Cortex.Door        crates/loa-cortex/src/http.rs: route and the dispatch of every command, with the
--                    news; Cortex.Refused and Cortex.Announced are about it
-- Console            crates/ripperdoc: the model that view.rs fills from the feed, its picture of the
--                    face (Console.Art), the drain of the feed (Console.Newest), the keys of main.rs
--                    (Console.Keys); Console.Follows and Console.Served put it behind the cortex and
--                    its door
-- Vault              crates/loa-cortex/src/vault.rs: a Disk is what the files hold; Fernet is the token
--                    format, Journal the operations, Door the commands of http.rs
-- Ring.Encode        crates/loa-ring/src/encode.rs; Ring.Decode is an independent reader of it
-- Ring.Tells         crates/loa-ring/src/tells.rs: the mute gate and the ladder
-- Ring.Held          crates/loa-ring/src/main.rs (hold, Held::input) and note_oneshot of render.rs
-- Ring.Curves        the colour curves of tells.rs; Ring.Render is the renderer of render.rs, which
--                    Ring.Gated is about
-- Weather.Dht        crates/loa-weather/src/dht.rs: edges, widths, frames, reads
-- Weather.Baro       crates/loa-weather/src/baro.rs: the compensation
-- Weather.Air        crates/loa-weather/src/state.rs: what is news
-- Fault              crates/loa-fault/src/lib.rs: rows, verdicts, report; Probes and Checks are
--                    evaluate, one function per check; Verdict has the message of main.rs
-- Sonar              crates/loa-sonar/src/state.rs
-- Oled               crates/loa-oled/src/frame.rs: the frame buffer; Oled.Pixels reads its pixels;
--                    Oled.Line is the line drawing, Oled.Way its steps, Oled.Fits its arithmetic and
--                    Oled.Reach its end
-- Oled.Fonts         the glyph tables of crates/loa-oled/src/fonts.rs and the text drawing
-- Oled.View          crates/loa-oled/src/rstate.rs: what the face holds and when it takes over;
--                    Oled.Takeover and Oled.Relayed are about it
-- Oled.Draw          crates/loa-oled/src/fonts_draw.rs: the text in its fonts; a page draws with a Pen,
--                    a function from a frame to a frame
-- Oled.Clock         the clock line of crates/loa-oled/src/face.rs and its time zone
-- Oled.Face          the animations of face.rs; Oled.Showoff is the show, Oled.Pages the pages of the
--                    sensors and Oled.Boards the bench pages
-- Oled.Render        crates/loa-oled/src/render.rs and the table of modes of face.rs; Oled.Kinds and
--                    Oled.Kept are about it, and Oled.Screen and its children about where it writes
-- Matrix             rust/loa-matrix: the 8x8 panel's glyphs, its wiring and its programs
--                    (Glyphs, Panel, Demos, Alert); Matrix.Feed reads off a feed what the alert
--                    light must show; Matrix.Feed reads off a feed what the alert
--                    light must show; Matrix.Feed reads off a feed what the alert
--                    light must show
-- Examples modules   runs on concrete values; Cortex.Sample holds some that two of them share
--
-- State is passed explicitly: an operation takes the state and returns it with what it published.
-- A run is a list of polls, messages, requests, measurements or timed panel steps. Recursion is
-- structural, and each run is as long as its list, but for one loop: the line of Oled.Line moves
-- one pixel a turn and runs on fuel, the width plus the height of the line plus one. That is
-- enough, since each turn takes one from the distance that is left.
--
-- Floats: f64 is a type parameter F with the operations of Base.Floats; a theorem about F holds
-- for any such operations. The DHT's numbers are in tenths, exactly. A u32 counter wraps at 2^32, as in
-- a release build. The barometer's i64 arithmetic is on unbounded integers. A panic is `none`; a
-- write past the face's buffer, which panics too, leaves the empty list for a frame. A line whose i32
-- arithmetic overflows is `none` as well, and a page leaves such a line out.
--
-- Parameters: prost and the UTF-8 conversions (Wire.Contract.Codec, with their round trips as the
-- hypothesis IsLossless), base64, the cipher, the digests and JSON (Vault.Tools, with their round
-- trips as IsSound), and the standard library's text and number formatting (Fault.Probes.Formats);
-- equality of byte strings and JSON values as text (Cortex.Process); the rest of the float operations
-- and the casts (Base.Floats.Maths); the parse of a float and its cast to u32 (Oled.View); what the
-- daemon's socket answers and what its select takes (Sense); which writes the panel's bus takes
-- (Matrix); serde_json's parse of a request (Cortex.Door); the face's random numbers (Oled.Face.Chance),
-- its printing of numbers (Oled.Pages.Print), and the parse of a whole number (Oled.Clock); the
-- console's subscription (Console.Follows). Times and random bytes are arguments, where the code reads
-- a clock or the kernel's pool.
--
-- Not modelled: sockets, GPIO, I2C and SPI transfers, signals, threads, HTTP and SQL; disk errors
-- other than a missing file; the face's panel driver and what decides when a frame goes out; the
-- settings files and the command lines; the console's panes, its status line and its HTTP client. Of
-- the earlier daemons under rust/ only the matrix is modelled, which has no newer version; the crates
-- replace the others and the Python ones.
pub mod Base
pub mod Wire
pub mod Motion
pub mod Cortex
pub mod Console
pub mod Ring
pub mod Weather
pub mod Fault
pub mod Sense
pub mod Sonar
pub mod Vault
pub mod Oled
pub mod Matrix
