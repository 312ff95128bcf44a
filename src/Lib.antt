-- ===== src/Lib.antt =====
-- Verification of the Radix operator, the Kubernetes operator of the Radix platform.
--
-- The program. An application owner triggers a pipeline job (RadixJob). Its reconciliation puts it
-- in a queue, runs it as a Kubernetes job and removes old jobs. A pipeline job creates one
-- deployment (RadixDeployment) in each environment that it targets; the reconciliation of a
-- deployment makes it the active one, makes the others inactive and removes old ones. A job
-- component of the active deployment runs batches (RadixBatch); the reconciliation of a batch runs
-- a Kubernetes job for each of its batch jobs and collects their status. The job scheduler of a job
-- component creates its batches with their payloads, asks to stop or restart them, and removes old
-- ones. An environment that an application has no longer is marked, and a task deletes it when it
-- has been marked for long enough. The parts meet in the objects that the API server stores: a
-- deployment names the pipeline job that made it, which keeps that job in the history, and a batch
-- names its deployment, which keeps that one. The objects of a kind are reconciled by the workers
-- of a controller, which lock the namespace or the name of the object. An application is validated
-- by a webhook before it is stored; its components are merged with the configuration of each
-- environment when a deployment is made.
--
-- The files and the code.
--   Prelude           names of the libraries, Boolean tests, searches in lists, texts
--   Kube.Job, Pod     the Kubernetes job and pod, pkg/apis/kube/job.go
--   PipelineJob.Types     the data, pkg/apis/radix/v1/radixjobtypes.go and radixapptypes.go
--   PipelineJob.Targets   GetTargetEnvironments of
--     pkg/apis/applicationconfig/applicationconfig.go; getTargetEnvironments and
--     hasConflictingTargetEnvironments of pkg/apis/job/job.go
--   PipelineJob.Queue     handleJobQueueing, shouldBeQueuedBehindOlderJobs,
--     isOtherJobRunningOnBranchOrEnvironment and setNextJobToWaiting of pkg/apis/job/job.go;
--     Queue.Exclusion has the step relation of a namespace: a job is submitted, has a field of
--     its status written, is queued, starts, is followed, is stopped, or is promoted
--   PipelineJob.Status    findJobCondition of pkg/apis/job/kubejob.go; stopJob and getJobStep of
--     pkg/apis/job/job.go; Status.Pods has getJobSteps, Status.Sync has syncStatus
--   PipelineJob.Deletion  deletePipelineJobs and what it calls, pkg/apis/job/job.go
--   PipelineJob.OnSync    OnSync and the calls that it makes, pkg/apis/job/job.go; its steps are
--     those of Queue.Exclusion
--   PipelineJob.History   Cleanup and all that it calls, pkg/apis/job/job_history.go:
--     History.Deployments has getRadixJobsMapToRadixDeployments, and History.ConfigMaps has the
--     deletion of jobs and ConfigMaps
--   Batch.Types           the data, pkg/apis/radix/v1/radixbatchtypes.go
--   Batch.Phases          the tests of pkg/apis/batch/utils.go and syncer.go
--   Batch.PodStatus       updateJobAndPodStatuses and what it calls, pkg/apis/batch/status.go
--   Batch.JobStatus       buildJobStatuses and buildBatchJobStatus, pkg/apis/batch/status.go
--   Batch.Sync            syncStatus, pkg/apis/batch/status.go, with pkg/apis/batch/errors.go
--   Batch.Reconcile       OnSync and reconcile of pkg/apis/batch/syncer.go, reconcileKubeJob and
--     deleteJobs of kubejob.go, reconcileService of service.go
--   Deployment.Types      the data, pkg/apis/radix/v1/radixdeploytypes.go, and the order in time
--   Deployment.Activation trySetActiveCondition, setOtherRDsToInactive and isLatest of
--     pkg/apis/deployment/deployment.go
--   Deployment.History    maintainHistoryLimit of pkg/apis/deployment/deployment.go
--   Deployment.Components the components of a new deployment: Types has their data; Settings and
--     KeyVaults have the merges with the configuration for an environment, and Assembly has
--     GetRadixComponentsForEnv, of pkg/apis/deployment/radixcomponent.go and
--     radixcommoncomponent.go; KeyVaults is over the data that Webhook.KeyVaults validates
--   JobScheduler.Status   job-scheduler/pkg/internal/job_status.go
--   JobScheduler.Names    ParseBatchAndJobNameFromScheduledJobName of job-scheduler/internal/batch.go
--   JobScheduler.Payloads createRadixBatchJobPayloadSecrets and createSecrets of
--     job-scheduler/api/v1/handlers/internal/handler.go
--   JobScheduler.Stop     stopRadixBatchJob and what it calls, job-scheduler/pkg/batch/batch.go;
--     Stop.Reference says what a stop is to do to the stored batches
--   JobScheduler.Batches  the restart, the copy and the deletion of batches, batch.go
--   JobScheduler.History  Cleanup and what it calls, job-scheduler/pkg/batch/history.go
--   Environment.Sync      Sync of operator/environment/handler.go; OnSync, reconcile and syncStatus
--     of pkg/apis/environment/environment.go and status.go
--   Environment.Cleanup   operator/scheduler/tasks/radix_environments_cleanup.go, which deletes the
--     environments that Environment.Sync has marked as orphans
--   Scaling.Types         the horizontal scaling and NormalizeConfig,
--     pkg/apis/radix/v1/radixhorizontalscalingtypes.go
--   Scaling.Validation    the validation of one configuration,
--     webhook/validation/radixapplication/validate_horizontalscaling.go
--   Scaling.Merge         getRadixCommonComponentHorizontalScaling of
--     pkg/apis/deployment/radixcomponent.go
--   Scaling.Replicas      getDeployComponentReplicas of pkg/apis/deployment/kubedeployment.go
--   Webhook.Types         the parts of an application that are validated, and the errors
--   Webhook.VolumeMounts, Mounts, Dns, Components, Scaling   the validators of
--     webhook/validation/radixapplication: validate_volumemounts.go, validate_dns.go, validate.go
--     and validate_horizontalscaling.go
--   Webhook.KeyVaults, Secrets   webhook/validation/radixapplication/validate_secrets.go, with
--     a record of what the secrets of a component or a job are validated against
--   Webhook.Batches       webhook/validation/radixbatchjob/validate_rb.go
--   Controllers.Workers   processNext and processWorkItem of operator/common/controller.go with the
--     locks of utils.go: the step relation of the workers of one controller
-- A child module that is not named here has lemmas and theorems on the definitions of its parent.
-- Examples has the theorems at concrete inputs, and runs of the definitions.
--
-- How the code is written here. A Go function has its name in snake_case. A method that changes
-- its receiver or what the API server stores returns the changed value, and an error is a value of
-- the result. A pointer is an Option, a time is a number of seconds (0 is the zero time), a
-- typed string is a data type with the constants as constructors, a map is a list of its keys or
-- entries. The helpers slice.Any, All, FindFirst and FindAll of radix-common are the loops that
-- they stand for. Log messages, contexts and metrics are left out. The loops of the code run
-- over lists and are structural recursion here, so no fuel is needed; the endless loop of a
-- controller is a step relation.
--
-- Parameters. The answers of the API server are arguments of the definitions, as errors of single
-- calls or as the listed objects. branch.MatchesPattern, a match of a regular expression, is
-- the parameter `matches_pattern`. sort.Slice is the parameter `sort`, with the hypotheses that
-- it loses or invents no element where a theorem needs one; for the history of batches it gives a
-- permutation in the order of the comparison of the code.
-- resource.ParseQuantity of Kubernetes and the parse of a cron schedule are the parameters
-- `parse_quantity` and `is_keda_cron`. labels.Merge of apimachinery is the field `merge_labels` of
-- the calls of an environment. In the components of a deployment `replace_tag` is
-- strings.ReplaceAll of the tag, `is_positive` is strconv.Atoi with the test above 0, and the errors
-- of mergo are `merge_error` and `volume_mounts_error`. retry.RetryOnConflict of client-go is a
-- list of the runs before the last one, between which no other client changes the batches. The
-- work queue of client-go is not defined: the calls that the workers make are recorded in their
-- order.
--
-- Not modelled. The creation and the content of Kubernetes objects (jobs, services, deployments,
-- scaled objects, network policies, secrets, roles) is input and output; the values that mergo
-- merges (authentication, identity, volume mounts, the descriptions of new batches), the rest of
-- the validators of the webhooks, the pipeline runner, DNS aliases and alerts are left for later;
-- the generated clients, the charts and the REST service of the API server are left aside.
pub mod Prelude
pub mod Kube
pub mod PipelineJob
pub mod Batch
pub mod Deployment
pub mod JobScheduler
pub mod Scaling
pub mod Webhook
pub mod Controllers
pub mod Environment
mod Examples
