-- ===== src/Transport/Life.antt =====
-- The life of a transport and of the DDS domain in common/dds_transport.c: how participants are
-- counted, and when a failed start can be seen.
use rmt_library.Common.{
  ◌+◌, ◌<◌, ◌^◌, ◌%◌, ◌≡◌, Bool, true, false, none, some, ℤ, pos, is_neg, arith, if◌then◌else◌, ◌∙◌,
  ◌==◌, ◌&&◌, ◌||◌,
}
use rmt_library.Transport.{
  Pointer, null, live, freed, Answers, Globals, Transport, made, dev_info, data_req, data_reply,
  transport_init, server_entities, server_init, deinit, send, is_pos, agent_init, agent_entities,
  config_init, is_precondition_not_met,
}

-- some topic of `dds_transport_init` was not made
abbrev pub topic_failed : Answers → Bool
topic_failed a =
    is_neg (a.topic dev_info) || (is_neg (a.topic data_req) || is_neg (a.topic data_reply))

-- some reader or writer of a server was not made
abbrev pub endpoint_failed : Answers → Bool
endpoint_failed a =
    is_neg (a.reader dev_info) || (is_neg (a.writer data_req) || is_neg (a.reader data_reply))

-- the globals with one participant more
abbrev pub counted : Globals → Globals
counted g = record g { participant_num = (g.participant_num + 1) % 2 ^ 32 }

-- All outcomes of `dds_transport_server_init`: no memory gives null; a missing participant or topic
-- makes it use the transport that `dds_transport_init` has freed; a missing reader or writer gives
-- a pointer to freed memory; and otherwise the transport holds the entities that were made. The
-- participant is counted as soon as it was made, also when a later step fails.
pub server_init_outcomes :
    (a : Answers) (g : Globals)
    → server_init a g ≡ (
        if a.malloc_ok
        then if is_neg a.participant || topic_failed a
          then none
          else some (if endpoint_failed a then freed else live (made a), counted g)
        else some (null, g))
unfolding server_init transport_init server_entities
server_init_outcomes a g = ground arith

-- A server that starts and stops leaves the participants counted as before, and takes the domain down
-- exactly if no other participant is left and there is a domain to take down.
pub deinit-server_init :
    (a : Answers) (deleted : ℤ) (g g' : Globals) (t : Transport)
    → g.participant_num < 2 ^ 32
    → server_init a g ≡ some (live t, g')
    → deinit deleted (live t) g'
      ≡ some (
        send deleted,
        record g { domain = if g.participant_num == 0 && is_pos g.domain then pos 0 else g.domain },
      )
unfolding server_init transport_init server_entities deinit
deinit-server_init a deleted g g' t h e = ground arith

-- A start that fails behind its participant is counted for ever: after it, a transport that starts
-- and stops in a process with no other participant leaves the domain in place.
pub domain_outlives :
    (a b : Answers) (deleted : ℤ) (g g₁ g₂ : Globals) (t : Transport) (p : Pointer)
    → g.participant_num ≡ 0
    → a.malloc_ok ≡ true
    → is_neg a.participant ≡ false
    → topic_failed a ≡ true
    → transport_init a g ≡ (p, g₁)
    → server_init b g₁ ≡ some (live t, g₂)
    → deinit deleted (live t) g₂ ≡ some (send deleted, record g { participant_num = 1 })
unfolding server_init transport_init server_entities deinit
domain_outlives a b deleted g g₁ g₂ t p z m k f e₁ e₂ = ground arith

-- some writer or reader of an agent was not made
abbrev pub agent_endpoint_failed : Answers → Bool
agent_endpoint_failed a =
    is_neg (a.writer dev_info) || (is_neg (a.reader data_req) || is_neg (a.writer data_reply))

-- The outcomes of `dds_transport_agent_init` are those of a server, with the agent's own entities.
pub agent_init_outcomes :
    (a : Answers) (g : Globals)
    → agent_init a g ≡ (
        if a.malloc_ok
        then if is_neg a.participant || topic_failed a
          then none
          else some (if agent_endpoint_failed a then freed else live (made a), counted g)
        else some (null, g))
unfolding agent_init transport_init agent_entities
agent_init_outcomes a g = ground arith

-- Where the domain was already there, `dds_transport_config_init` succeeds, and a server that starts and stops
-- behind it never takes that domain down.
pub borrowed_domain :
    (a : Answers) (deleted created domain_id : ℤ) (g g' : Globals) (t : Transport)
    → g.participant_num < 2 ^ 32
    → is_precondition_not_met created ≡ true
    → server_init a (config_init created domain_id g).1 ≡ some (live t, g')
    → ((config_init created domain_id g).0 ≡ pos 0)
      × (deinit deleted (live t) g'
          ≡ some (send deleted, record g { domain = created; domain_id = domain_id }))
unfolding config_init
borrowed_domain a deleted created domain_id g g' t h met e = (
  ground arith,
  deinit-server_init a deleted (record g { domain = created; domain_id = domain_id }) g' t h e
      ∙ ground arith,
)
