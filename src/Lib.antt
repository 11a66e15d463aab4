-- ===== src/Lib.antt =====
-- rampipe keeps language models mapped and resident, and runs conversations with them.
--
-- Parts, and the files that model them:
-- * src/lib.rs, `SwapRegistry`: Registry. The three maps and the counted cells are `RegistryState`;
--   `load`, `evict`, `record_device_bytes` and the totals have the source's names. What the
--   operating system answers during one `load` is the record `Host`. Registry/Sync has the
--   invariant, Evict the handles, Recency the order of eviction, Totals the byte counts.
-- * src/llama.rs, `Conversation::ensure_room_for` and `drop_oldest_turns_for`: Conversation/Window.
--   The cache of llama.cpp is a parameter with its two calls. Window/Shape has the invariant of the
--   turns, Bound the end and the room made, Lockstep the agreement of tokens and cache.
-- * src/protocol.rs, `ToolCall` and `ToolFormat`, and src/tool_format.rs, `parse_tool_calls`:
--   ToolFormat, its JSON values in ToolFormat/Value; `serde_json::from_str` is a parameter.
--   ToolFormat/Closers, Total, Scan and RoundTrip are about the parser.
-- * src/tool_format.rs, `TurnEnd` and `ends_mid_call`: ToolFormat/TurnEnd, with ToolFormat/Cut.
-- * src/llama.rs, `decode_chunked` and `run_generation_loop`: Conversation/Generation, with llama.cpp
--   as the record `Engine`; `send` and `send_tool_results`: Conversation/Session, whose `exchange` is
--   what the two share. Generation/Bounds and Feeding are about the loop, Session/Commit and
--   Agreement about an exchange.
-- * src/bin/rampiped.rs, `SharedState`: Daemon, on top of Registry; Daemon/Eviction and Search are
--   about the search for room. Daemon/Connection has `handle_conversation` and
--   `run_conversation_turn`, and its Outcomes the counters.
-- * src/model_settings.rs, `ModelSettings`: Settings, with the conversions of src/bin/rampiped.rs;
--   Settings/Longest is about the choice of an entry.
-- * src/tool_format.rs, `derive_tool_call_format`, `render_opening` and the capabilities:
--   ToolFormat/Probe and ToolFormat/Derive, the renderer of templates a parameter. The common ends of
--   two renderings are compared as UTF-8 bytes, as in the source; other offsets count characters.
--   Derive/Layout, Sound, Separated, Payload and Rendered say how a derived format
--   and the template's own text agree. ToolFormat/Results has `ToolResultSpans`.
-- * src/llama.rs, `derive_conversation_template`: Conversation/Template, where a slice that is out of
--   range is a panic of the model, with Conversation/Composed; `open_conversation` and
--   `prepare_tools`: Conversation/Opening; `save_state` and `open_conversation_from_state`:
--   Conversation/Snapshot, files as bytes by path.
-- * Registry/Reach has the states that calls lead to, Registry/Ledger what the registry promises, a
--   count of handles for each mapped path, and Registry/Effect what one `load` does to the cells.
--   Daemon/Handed, Counter and Ensure carry that into `ensure_loaded`; Daemon/References follows the
--   counts of the sessions' references.
-- * src/scripted.rs, `serve`: Scripted, with Scripted/Order.
-- * src/llama.rs, `generate` and `formatted_prompt`: Conversation/OneShot; `embed`:
--   Conversation/Embedding, with the arithmetic of `f32` as a parameter.
-- * src/bin/rampiped.rs, `handle_connection`, `handle_request`, `handle_embed` and `handle_status`:
--   Daemon/Messages and Daemon/Requests. Daemon/Connection/Managed and Daemon/Requests/Serving are
--   about the store's invariant.
-- * src/client.rs, `RampipedClient` and `RampipedConversation`: Client, with what comes of a request
--   on the socket as a value; Client/Converse puts it together with the daemon's side.
--
-- Common holds what these share: texts as code points, association lists, 32-bit integers, floats
-- as bit patterns. Tests applies each theorem to a concrete input.
--
-- Fuel: generation runs on the size of the context and one more, the search for room on the number
-- of sessions and one more, `drop_oldest_turns_for` on the number of turns and one more, and the
-- loops of the parser on the length of the text and one more; `Run.out_of_fuel` is what is left of a
-- loop that has not ended. The theorems on ends below say when that is enough.
--
-- Not modelled: the clock, sockets and their framing, the reading of
-- settings and scripts from TOML, the operating system's probes, the rendering of chat templates by
-- minijinja, and the calls of llama.cpp themselves. What the modelled code uses of these
-- is a parameter.
pub mod Client
pub mod Common
pub mod Registry
pub mod ToolFormat
pub mod Conversation
pub mod Tests
pub mod Daemon
pub mod Settings
pub mod Scripted
